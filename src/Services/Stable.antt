-- ===== src/Services/Stable.antt =====
-- The arrays of the server: what every decoder and every answer keeps, as long as the code of the
-- application keeps it too.
use cosemlib.Base.{
  ℕ, ◌+◌, ◌<◌, ◌≤◌, ◌≡◌, refl, ◌∙◌, Bool, true, false, Option, none, some, arith, length, List, M,
  pure, ◌==◌, when, if◌then◌else◌, ◌>>=◌, ◌&&&◌, ◌&&>◌, Returns, Returns-bind, Returns-map,
}
use cosemlib.Base.Words.{u32_mod}
use cosemlib.Array
use cosemlib.Array.{Array, Read}
use cosemlib.Array.Bounds.{
  IsValid, Kept, read_u8-Kept, read_u16-Kept, read_u32-Kept, read_buff-Kept,
}
use cosemlib.Services.{
  is_action, is_get, Exchange, Request, on_array, update, take_u8, take_read, take_buff,
}
use cosemlib.Services.Coding.{
  service_of, sel_access_of, set_sel_access, set_additional, is_normal_request, is_next_request,
  selective_access, data_presence, request_body, decode_request,
}

-- A valid array with the header of a response to spare, and six bytes of memory behind it for the copy
-- of `csm_array_read_buff`.
pub record IsRoomy (a : Array) : Type 0 where
  pub valid : IsValid a
  pub header_fits : a.offset + 6 < a.size
  pub spare : a.size + 6 ≤ length a.buff
  pub reach : a.size + 6 < u32_mod

-- The array is as before, but for its indices and its bytes.
pub record Same (a a' : Array) : Type 0 where
  pub roomy : IsRoomy a'
  pub offset_eq : a'.offset ≡ a.offset
  pub size_eq : a'.size ≡ a.size
  pub length_eq : length a'.buff ≡ length a.buff

pub Same-refl : {a : Array} → IsRoomy a → Same a a
Same-refl h = record { roomy = h; offset_eq = refl; size_eq = refl; length_eq = refl }

pub Same-trans : {a b c : Array} → Same a b → Same b c → Same a c
Same-trans h k = record {
  roomy = k.roomy;
  offset_eq = k.offset_eq ∙ h.offset_eq;
  size_eq = k.size_eq ∙ h.size_eq;
  length_eq = k.length_eq ∙ h.length_eq;
}

pub Kept-Same : {a a' : Array} → IsRoomy a → Kept a a' → Same a a'
Kept-Same {a} {a'} h k = record {
  roomy = record {
    valid = k.valid;
    header_fits = omega arith;
    spare = omega arith;
    reach = omega arith;
  };
  offset_eq = k.offset_eq;
  size_eq = k.size_eq;
  length_eq = k.length_eq;
}

pub record Stable {R A : Type 0} (m : M (Exchange R) A) : Type 0 where
  pub run : (s : Exchange R) → IsRoomy s.array → Returns (m s) (λ _ t. Same s.array t.array)

module _ {R : Type 0} where
  pub Stable->>= :
      {A B : Type 0} {m : M (Exchange R) A} {f : A → M (Exchange R) B}
      → Stable m
      → ((x : A) → Stable (f x))
      → Stable (m >>= f)
  Stable->>= {m = m} {f} p q = record {
    run = λ s h.
        Returns-bind (λ _ t. Same s.array t.array) (m s) f (p.run s h)
          (λ x u same.
            Returns-map (λ _ t. Same s.array t.array) (f x u) ((q x).run u same.roomy)
              (λ _ _ same'. Same-trans same same'));
  }

  pub Stable-pure : {A : Type 0} (x : A) → Stable {R = R} (pure x)
  Stable-pure x = record { run = λ s h. Same-refl h }

  pub Stable-if :
      {A : Type 0} (b : Bool) {m k : M (Exchange R) A}
      → Stable m
      → Stable k
      → Stable (if b then m else k)
  Stable-if true p q = p
  Stable-if false p q = q

  pub Stable-&&& : {m k : M (Exchange R) Bool} → Stable m → Stable k → Stable (m &&& k)
  Stable-&&& {m} {k} p q = Stable->>= p (go)
    where
      go : (b : Bool) → Stable (when b k (pure false))
      go true = record { run = λ s h. q.run s h }
      go false = record { run = λ s h. Same-refl h }

  pub Stable-update : (f : R → R) → Stable (update f)
  Stable-update f = record { run = λ s h. Same-refl h }

  pub on_array-Stable :
      {A : Type 0} (m : M Array A)
      → ((a : Array) → IsRoomy a → Returns (m a) (λ _ a'. Kept a a'))
      → Stable {R = R} (on_array m)
  on_array-Stable m k = record { run = λ s h. ground (arith, k s.array h) }

  pub take_u8-Stable : (f : ℕ → R → R) → Stable (take_u8 f)
  take_u8-Stable f = record { run = λ s h. ground (arith, read_u8-Kept h.valid) }

  pub take_u16-Stable : (f : ℕ → R → R) → Stable (take_read Array.read_u16 f)
  take_u16-Stable f = record { run = λ s h. ground (arith, read_u16-Kept h.valid) }

  pub take_u32-Stable : (f : ℕ → R → R) → Stable (take_read Array.read_u32 f)
  take_u32-Stable f = record { run = λ s h. ground (arith, read_u32-Kept h.valid) }

  pub take_obis-Stable : (f : List ℕ → R → R) → Stable (take_buff 6 f)
  take_obis-Stable f = record {
    run = λ s h.
        let reads =
          read_buff-Kept h.valid 6 (omega (arith, h.spare, h.valid))
            (omega (arith, h.reach, h.valid)) in
        ground (arith, reads);
  }

  pub Stable-&&> :
      {A : Type 0} (m : M Array (Option A)) (f : A → M (Exchange R) Bool)
      → ((a : Array) → IsRoomy a → Returns (m a) (λ _ a'. Kept a a'))
      → ((x : A) → Stable (f x))
      → Stable (on_array m &&> f)
  Stable-&&> {A} m f k q = Stable->>= (on_array-Stable m k) (go)
    where
      go :
          (o : Option A)
          → Stable (elim o as (λ x. M (Exchange R) Bool) [ none ↦ pure false | some x ↦ f x ])
      go none = record { run = λ s h. Same-refl h }
      go (some x) = q x

-- `svc_decode_request` keeps the array, if the function of the application does.
module _ {hal : M (Exchange Request) Bool} (selects : Stable hal) where
  selective_access-Stable : Stable (selective_access hal)
  unfolding selective_access
  selective_access-Stable =
      Stable->>= {m = service_of} (record { run = λ s h. Same-refl h })
        (λ service. Stable-if (is_action service) (Stable-pure true) (
          Stable-&&& (take_u8-Stable set_sel_access) (
            Stable->>= {m = sel_access_of} (record { run = λ s h. Same-refl h })
              (λ enable. Stable-if (enable == 0) (Stable-pure true) selects))))

  pub decode_request-Stable : Stable (decode_request hal)
  unfolding decode_request data_presence
  decode_request-Stable =
      let presence : Stable data_presence =
        Stable->>= {m = service_of} (record { run = λ s h. Same-refl h })
          (λ service.
            Stable-if (is_get service) (Stable-pure true) (take_u8-Stable set_additional)) in
      let normal = Stable-&&& (take_u16-Stable _) (
        Stable-&&& (take_obis-Stable _)
          (Stable-&&& (take_u8-Stable _) (Stable-&&& selective_access-Stable presence))) in
      let body : (type : ℕ) → Stable (request_body hal type) = λ type.
        Stable->>= {m = service_of} (record { run = λ s h. Same-refl h })
          (λ service.
            Stable-if (is_normal_request type) normal
              (Stable-if (is_next_request type service) (take_u32-Stable _) (Stable-pure true))) in
      Stable-&&> Array.read_u8 _ (λ a h. read_u8-Kept h.valid)
        (λ type. Stable-&&& (take_u8-Stable _) (body type))
