-- ===== src/Services/Delivery.antt =====
-- A request that the client encodes and the server decodes: what arrives, service by service.
use cosemlib.Base.{
  ℕ, ◌+◌, ◌<◌, ◌≤◌, ◌≡◌, ◌≢◌, refl, sym, ap, ◌∙◌, Bool, true, false, List, [], ◌∷◌, ◌++◌,
  append_assoc, arith, length, length-append, slice, not, leb, ltb, le→leb, lt→ltb, ret, M, pure,
  if◌then◌else◌, ◌>>=◌, ◌&&>◌, ◌==◌,
}
use mathlib.Core.Path.{subst}
use cosemlib.Base.Words.{u16_mod, put_be16}
use cosemlib.Array
use cosemlib.Array.{Array, written}
use cosemlib.Array.Bounds.{IsValid}
use cosemlib.Array.Append.{
  append, append-IsValid, Room, Emits, Emits-nil, Emits-&&&, write_u8-Emits, write_buff-Emits,
}
use cosemlib.Array.Consume.{skip, skip-skip, Ahead, Ahead-left, append-Ahead, read_u8_next}
use cosemlib.Services.{
  is_action, is_get, svc_get, svc_set, svc_action, OptData, Request, Exchange, on_array,
  svc_request_normal,
}
use cosemlib.Services.Coding.{
  set_sel_access, set_additional, selective_access, data_presence, decode_request, write_from,
  request_tag, encode_option, encode_data, request_encoder,
}
use cosemlib.Services.Takes.{Takes, Takes-pure, Takes-&&&, take_u8-Takes}
use cosemlib.Services.RoundTrip.{request_bytes, named_as, encode_normal-Emits, normal_request-Takes}

-- The client encodes `r`; the server, whose request is the message, reads the tag and decodes.
abbrev pub deliver : M (Exchange Request) Bool → Request → M (Exchange Request) Bool
deliver hal r =
    on_array (request_encoder r) >>= λ _. on_array Array.read_u8 &&> λ tag. decode_request hal

length-request_bytes :
    (r : Request) (xs : List ℕ)
    → length r.db_request.logical_name.obis ≡ 6
    → length (request_bytes r xs) ≡ 11 + length xs
unfolding put_be16
length-request_bytes r xs e =
    let name = r.db_request.logical_name in omega (arith, length-append name.obis (name.id ∷ xs))

request_bytes-append :
    (r : Request) (xs zs : List ℕ) → request_bytes r (xs ++ zs) ≡ request_bytes r xs ++ zs
request_bytes-append r xs zs =
    let name = r.db_request.logical_name in
    ap (λ l. 1 ∷ r.sender_invoke_id ∷ l)
      (ap (λ l. put_be16 name.class_id ++ l) (sym (append_assoc name.obis (name.id ∷ xs) zs))
        ∙ sym (append_assoc (put_be16 name.class_id) (name.obis ++ (name.id ∷ xs)) zs))

-- The optional data are there: the bytes `xs`, at least one.
pub record Carries (o : OptData) (xs : List ℕ) : Type 0 where
  pub enabled : o.enable ≢ 0
  pub present : o.is_null ≡ false
  pub some_bytes : 0 < written o.data_array
  pub inside : written o.data_array ≤ length o.data_array.buff
  pub bytes_eq : slice 0 (written o.data_array) o.data_array.buff ≡ xs

enabled_flag : (e : ℕ) → e ≢ 0 → not (e == 0) ≡ true
enabled_flag e h = ground arith

module _ (hal : M (Exchange Request) Bool) (r q : Request) where
  -- GET and SET without selective access.
  no_access_Emits :
      (request_tag r.db_request.service == 195) ≡ false
      → r.db_request.sel_access.enable ≡ 0
      → Emits (encode_option r.db_request) (0 ∷ [])
  unfolding encode_option
  no_access_Emits h e = rw (h, e) (Emits-&&& (write_u8-Emits 0) Emits-nil)

  stops :
      (s : Request)
      → Takes
          (λ x. (if x.message.db_request.sel_access.enable == 0 then pure true else hal) x)
          []
          (set_sel_access 0 s)
          (set_sel_access 0 s)
  stops s = record { run = λ a v ahead. (Takes-pure (set_sel_access 0 s)).run a v ahead }

  pub no_access_Takes :
      (s : Request)
      → is_action s.db_request.service ≡ false
      → Takes (selective_access hal) (0 ∷ []) s (set_sel_access 0 s)
  unfolding selective_access
  no_access_Takes s h = record {
    run = λ a v ahead. rw h ((Takes-&&& (take_u8-Takes set_sel_access 0) (stops s)).run a v ahead);
  }

  -- The bytes `xs` and `ys` that the encoder adds after the name are, for the decoder, `ps` and `pp`
  -- and the bytes `zs` that it leaves.
  deliver_lem :
      (xs ys ps pp zs : List ℕ) {t u : Request} {a : Array}
      → xs ++ ys ≡ (ps ++ pp) ++ zs
      → r.request_type ≡ svc_request_normal
      → r.db_request.logical_name.class_id < u16_mod
      → length r.db_request.logical_name.obis ≡ 6
      → Emits (encode_option r.db_request) xs
      → Emits (encode_data r.db_request) ys
      → Takes (selective_access hal) ps (named_as r q) t
      → Takes data_presence pp t u
      → IsValid a
      → a.rd_index ≡ a.wr_index
      → Room a (12 + length (xs ++ ys))
      → deliver hal r (record { message = q; array = a })
        ≡ ret true (record {
          message = u;
          array =
              skip
                (12 + length (ps ++ pp))
                (append (request_tag r.db_request.service ∷ request_bytes r (xs ++ ys)) a);
        })
  deliver_lem xs ys ps pp zs {u = u} {a} split normal small six p d s w v e room =
      let tag = request_tag r.db_request.service in
      let rest = request_bytes r (xs ++ ys) in
      let same : rest ≡ request_bytes r (ps ++ pp) ++ zs =
        ap (request_bytes r) split ∙ request_bytes-append r (ps ++ pp) zs in
      let fits : Room a (length (tag ∷ rest)) =
        omega (arith, length-request_bytes r (xs ++ ys) six) in
      let (first, valid, ahead) =
        read_u8_next tag rest (append-IsValid (tag ∷ rest) v fits)
          (append-Ahead (tag ∷ rest) v e fits) in
      let takes = normal_request-Takes hal r q small six s w in
      let n = length (request_bytes r (ps ++ pp)) in
      rw ((encode_normal-Emits r normal p d).run a v fits, on_array, first)
        (takes.run (skip 1 (append (tag ∷ rest) a)) valid (
            Ahead-left (request_bytes r (ps ++ pp)) zs
              (subst (λ l. Ahead l (skip 1 (append (tag ∷ rest) a))) same ahead))
          ∙ ap (λ b. ret true (record { message = u; array = b }))
              (skip-skip 1 n (12 + length (ps ++ pp)) (append (tag ∷ rest) a)
                (omega (arith, length-request_bytes r (ps ++ pp) six))))

  -- The bytes of the data, where the request has some.
  data_Emits :
      (data_bytes : List ℕ)
      → (request_tag r.db_request.service == 192) ≡ false
      → Carries r.db_request.additional_data data_bytes
      → Emits (encode_data r.db_request) data_bytes
  unfolding encode_data
  data_Emits data_bytes other c =
      let t = enabled_flag r.db_request.additional_data.enable c.enabled in
      let n = written r.db_request.additional_data.data_array in
      let u : ltb 0 n ≡ true = lt→ltb 0 n c.some_bytes in
      let w : leb (0 + n) (length r.db_request.additional_data.data_array.buff) ≡ true =
        le→leb (0 + n) _ (omega (arith, c.inside)) in
      rw (other, t, u, c.present, sym c.bytes_eq)
        (record { run = λ a v h. rw (w, write_from) ((write_buff-Emits _).run a v h) })

  pub presence_Takes :
      (s : Request) (b : ℕ)
      → is_get s.db_request.service ≡ false
      → Takes data_presence (b ∷ []) s (set_additional b s)
  unfolding data_presence
  presence_Takes s b h = record {
    run = λ a v ahead. rw h ((take_u8-Takes set_additional b).run a v ahead);
  }

  pub absent_Takes : (s : Request) → is_get s.db_request.service ≡ true → Takes data_presence [] s s
  unfolding data_presence
  absent_Takes s h = record { run = λ a v ahead. rw h ((Takes-pure s).run a v ahead) }

  pub no_selection_Takes :
      (s : Request) → is_action s.db_request.service ≡ true → Takes (selective_access hal) [] s s
  unfolding selective_access
  no_selection_Takes s h = record { run = λ a v ahead. rw h ((Takes-pure s).run a v ahead) }

  -- A normal GET request without selective access arrives: after it is encoded into an array with
  -- nothing unread and with room, the server decodes the invoke id and the name of the object, and has
  -- read everything.
  pub deliver_get :
      {a : Array}
      → r.request_type ≡ svc_request_normal
      → r.db_request.service ≡ svc_get
      → q.db_request.service ≡ svc_get
      → r.db_request.sel_access.enable ≡ 0
      → r.db_request.logical_name.class_id < u16_mod
      → length r.db_request.logical_name.obis ≡ 6
      → IsValid a
      → a.rd_index ≡ a.wr_index
      → Room a 13
      → deliver hal r (record { message = q; array = a })
        ≡ ret true (record {
          message = set_sel_access 0 (named_as r q);
          array = skip 13 (append (192 ∷ request_bytes r (0 ∷ [])) a);
        })
  unfolding encode_option encode_data request_tag data_presence
  deliver_get {a} normal gets serves no_access small six v e room =
      let empty : Emits (encode_data r.db_request) [] = rw gets Emits-nil in
      let named = set_sel_access 0 (named_as r q) in
      rw (sym (ap request_tag gets)) (
        deliver_lem (0 ∷ []) [] (0 ∷ []) [] [] refl normal small six
          (no_access_Emits (rw gets refl) no_access) empty
          (no_access_Takes (named_as r q) (rw serves refl)) (absent_Takes named (rw serves refl)) v
          e room)

  -- A normal SET request without selective access that carries data arrives with the first byte of the
  -- data as the flag `additional_data.enable`, which the decoder of a SET request reads and the encoder
  -- does not write; the array then stands at the second byte of the data.
  pub deliver_set :
      (b : ℕ) (bs : List ℕ) {a : Array}
      → r.request_type ≡ svc_request_normal
      → r.db_request.service ≡ svc_set
      → q.db_request.service ≡ svc_set
      → r.db_request.sel_access.enable ≡ 0
      → r.db_request.logical_name.class_id < u16_mod
      → length r.db_request.logical_name.obis ≡ 6
      → Carries r.db_request.additional_data (b ∷ bs)
      → IsValid a
      → a.rd_index ≡ a.wr_index
      → Room a (14 + length bs)
      → deliver hal r (record { message = q; array = a })
        ≡ ret true (record {
          message = set_additional b (set_sel_access 0 (named_as r q));
          array = skip 14 (append (193 ∷ request_bytes r (0 ∷ b ∷ bs)) a);
        })
  unfolding request_tag
  deliver_set b bs {a} normal sets serves no_access small six carries v e room =
      let named = set_sel_access 0 (named_as r q) in
      rw (sym (ap request_tag sets)) (
        deliver_lem (0 ∷ []) (b ∷ bs) (0 ∷ []) (b ∷ []) bs refl normal small six
          (no_access_Emits (rw sets refl) no_access) (data_Emits (b ∷ bs) (rw sets refl) carries)
          (no_access_Takes (named_as r q) (rw serves refl))
          (presence_Takes named b (rw serves refl)) v e (omega arith))

  -- A normal ACTION request that carries data arrives with its flag, and the array then stands at the
  -- first byte of the data.
  pub deliver_action :
      (bs : List ℕ) {a : Array}
      → r.request_type ≡ svc_request_normal
      → r.db_request.service ≡ svc_action
      → q.db_request.service ≡ svc_action
      → r.db_request.logical_name.class_id < u16_mod
      → length r.db_request.logical_name.obis ≡ 6
      → Carries r.db_request.additional_data bs
      → IsValid a
      → a.rd_index ≡ a.wr_index
      → Room a (13 + length bs)
      → deliver hal r (record { message = q; array = a })
        ≡ ret true (record {
          message = set_additional r.db_request.additional_data.enable (named_as r q);
          array =
              skip 13 (append (195 ∷ request_bytes r (r.db_request.additional_data.enable ∷ bs)) a);
        })
  unfolding encode_option request_tag
  deliver_action bs {a} normal acts serves small six carries v e room =
      let enable = r.db_request.additional_data.enable in
      let flag : Emits (encode_option r.db_request) (enable ∷ []) =
        rw acts (write_u8-Emits enable) in
      let named = named_as r q in
      rw (sym (ap request_tag acts)) (
        deliver_lem (enable ∷ []) bs [] (enable ∷ []) bs refl normal small six flag
          (data_Emits bs (rw acts refl) carries) (no_selection_Takes named (rw serves refl))
          (presence_Takes named enable (rw serves refl)) v e (omega arith))
