-- ===== src/Services/Answers.antt =====
-- Every request that the server recognises is answered.
use cosemlib.Base.{
  ℕ, ◌+◌, ◌<◌, ◌≤◌, ◌≡◌, refl, ◌∙◌, Bool, true, false, List, [], ◌∷◌, arith, length, length-splice,
  ltb, Exec, ret, fault, Returns, Returns-map, Bool-cases, inl, inr,
}
use cosemlib.Array.{Array, writer_jump}
use cosemlib.Array.Bounds.{IsValid, Kept}
use cosemlib.Array.Append.{append, append-IsValid, Room, Emits, Emits-&&&, write_u8-Emits}
use cosemlib.Services.{is_action, is_ok, Request, Exchange, DbCode, ok, on_array}
use cosemlib.Services.Server.{
  App, Database, Transfer, response_encoder, response_start, response_tag, return_parameters,
  access_result, finish_answer, response_array, output_window, answer_get, answer_set_or_action,
  or_exception, exception_response_encoder, get_header, rewind,
}
use cosemlib.Services.Stable.{IsRoomy, Same, Same-refl, Same-trans, Kept-Same, Stable}

-- What the database leaves of its output: a window behind the header, in the buffer.
pub record InWindow (t : Transfer) : Type 0 where
  pub offset_eq : t.output.offset ≡ t.input.offset + 6
  pub size_eq : t.output.size ≡ t.input.size
  pub read_in : t.input.offset + t.output.rd_index ≤ t.input.size
  pub fits : t.input.offset + 6 + t.output.wr_index ≤ t.input.size

-- The code of the application keeps the arrays that it is given, and writes only forwards.
pub record Lawful (app : App) (db : Database) : Type 0 where
  pub selects : Stable app.decode_selective_access
  pub in_place :
      (s : Exchange Request)
      → IsRoomy s.array
      → Returns
          (db.in_place s)
          (λ _ t. Same s.array t.array × (s.array.wr_index ≤ t.array.wr_index))
  pub apart :
      (t : Transfer)
      → IsRoomy t.input
      → InWindow t
      → Returns (db.apart t) (λ _ u. Same t.input u.input × InWindow u)

-- The array after a call that wrote forwards.
abbrev Forward : Array → Bool → Array → Type 0
Forward a valid out = Kept a out × (valid ≡ true → a.wr_index ≤ out.wr_index)

Kept-append : (xs : List ℕ) {a : Array} → IsValid a → Room a (length xs) → Kept a (append xs a)
Kept-append xs {a} v room = record {
  valid = append-IsValid xs v room;
  offset_eq = refl;
  size_eq = refl;
  length_eq = length-splice (a.offset + a.wr_index) xs a.buff;
}

Kept-trans : {a b c : Array} → Kept a b → Kept b c → Kept a c
Kept-trans h k = record {
  valid = k.valid;
  offset_eq = k.offset_eq ∙ h.offset_eq;
  size_eq = k.size_eq ∙ h.size_eq;
  length_eq = k.length_eq ∙ h.length_eq;
}

Forward-append :
    (xs : List ℕ) {a : Array} (r : Exec Array Bool)
    → IsValid a
    → Room a (length xs)
    → Returns r (Forward (append xs a))
    → Returns r (Forward a)
Forward-append xs {a} r v room h =
    Returns-map (Forward a) r h
      (λ _ out k. (Kept-trans (Kept-append xs v room) k.0, λ e. omega (arith, k.1 e)))

writer_jump-Forward :
    (n : ℕ) {a : Array}
    → IsValid a
    → a.offset + a.wr_index + n ≤ a.size
    → Returns (writer_jump n a) (Forward a)
unfolding writer_jump
writer_jump-Forward n v h = ground arith

return_parameters-Forward :
    (n : ℕ) {a : Array}
    → IsValid a
    → Room a 2
    → a.offset + a.wr_index + 2 + n ≤ a.size
    → Returns (return_parameters n a) (Forward a)
unfolding return_parameters
return_parameters-Forward n {a} v room fits =
    let valid = append-IsValid (1 ∷ []) v (omega arith) in
    let one = (write_u8-Emits 1).run a v (omega arith) in
    let two = (write_u8-Emits 0).run (append (1 ∷ []) a) valid (omega arith) in
    let valid' = append-IsValid (0 ∷ []) valid (omega arith) in
    elim (Bool-cases (ltb 0 n)) [
      | inl e ↦
          rw (e, one, two)
            (Forward-append (1 ∷ []) _ v (omega arith) (
              Forward-append (0 ∷ []) _ valid (omega arith)
                (writer_jump-Forward n valid' (omega arith))))
      | inr e ↦
          rw (e, (write_u8-Emits 0).run a v (omega arith))
            (Kept-append (0 ∷ []) v (omega arith), λ _. omega arith)
    ]

response_encoder-Forward :
    (r : Request) (code : DbCode) (n : ℕ) {a : Array}
    → IsValid a
    → a.wr_index ≡ 0
    → a.offset + 6 < a.size
    → a.offset + 6 + n ≤ a.size
    → Returns
        (response_encoder r code n a)
        (λ valid out. Kept a out × (valid ≡ true → 3 ≤ out.wr_index))
unfolding response_encoder
response_encoder-Forward r code n {a} v start spare fits =
    let tag = response_tag r.db_request.service in
    let first = tag ∷ 1 ∷ r.sender_invoke_id ∷ [] in
    let header : Emits (response_start r) first =
      Emits-&&& (write_u8-Emits tag) (Emits-&&& (write_u8-Emits 1) (write_u8-Emits _)) in
    let second = access_result code ∷ [] in
    let valid = append-IsValid first v (omega arith) in
    let valid' = append-IsValid second valid (omega arith) in
    let four = append second (append first a) in
    let back : Kept a four =
      Kept-trans (Kept-append first v (omega arith)) (Kept-append second valid (omega arith)) in
    rw
      (
        header.run a v (omega arith),
        (write_u8-Emits (access_result code)).run (append first a) valid (omega arith),
      )
      (elim (Bool-cases (is_action r.db_request.service)) [
        | inl e ↦ rw e (
            Returns-map (λ valid out. Kept a out × (valid ≡ true → 3 ≤ out.wr_index))
              (return_parameters n four)
              (return_parameters-Forward n valid' (omega arith) (omega arith))
              (λ _ out h. (Kept-trans back h.0, λ f. omega (arith, h.1 f))))
        | inr e ↦ rw e (back, λ _. omega arith)
      ])

abbrev Finished : Transfer → DbCode → Exchange Request → Type 0
Finished u c s = Same u.input s.array × (is_ok c ≡ true → 3 ≤ s.array.wr_index)

finish_answer-Finished :
    (code : DbCode) (u : Transfer)
    → IsRoomy u.input
    → InWindow u
    → Returns (finish_answer code u) (Finished u)
unfolding finish_answer
finish_answer-Finished code u h w =
    let valid : IsValid (response_array u) = ground arith in
    let run =
      response_encoder-Forward u.message code u.output.wr_index valid refl (omega arith)
        (omega arith) in
    ground (arith, run)

-- Whatever went wrong, the answer is the exception response, from the first byte of the array on, and
-- the code is that of success.
pub or_exception-failure :
    (code : DbCode) (s : Exchange Request)
    → IsRoomy s.array
    → is_ok code ≡ false
    → or_exception code s
      ≡ ret ok (record {
        message = s.message;
        array = append (216 ∷ 1 ∷ 1 ∷ []) (record s.array { wr_index = 0 });
      })
unfolding or_exception rewind exception_response_encoder
or_exception-failure code s h e =
    let emits = Emits-&&& (write_u8-Emits 216) (Emits-&&& (write_u8-Emits 1) (write_u8-Emits 1)) in
    let valid : IsValid (record s.array { wr_index = 0 }) = ground (arith, h.valid) in
    rw (e, on_array, emits.run (record s.array { wr_index = 0 }) valid (omega (arith, h))) refl

rewound-Same :
    (xs : List ℕ) {a : Array}
    → IsRoomy a
    → a.offset + length xs < a.size
    → Same a (append xs (record a { wr_index = 0 }))
rewound-Same xs {a} h fits =
    let valid : IsValid (record a { wr_index = 0 }) = ground (arith, h.valid) in
    let kept = Kept-append xs valid (omega arith) in
    Kept-Same h
      (record { valid = kept.valid; offset_eq = refl; size_eq = refl; length_eq = kept.length_eq })

abbrev pub Answered : Array → DbCode → Exchange Request → Type 0
Answered a c t = Same a t.array × (is_ok c ≡ true) × (3 ≤ t.array.wr_index)

pub or_exception-Answered :
    (code : DbCode) (s : Exchange Request)
    → IsRoomy s.array
    → (is_ok code ≡ true → 3 ≤ s.array.wr_index)
    → Returns (or_exception code s) (Answered s.array)
unfolding or_exception
or_exception-Answered code s h k = elim (Bool-cases (is_ok code)) [
  | inl e ↦ rw e (Same-refl h, e, k e)
  | inr e ↦
      rw (or_exception-failure code s h e)
        (rewound-Same (216 ∷ 1 ∷ 1 ∷ []) h (omega (arith, h.header_fits)), refl, omega arith)
]

finished :
    (a : Array) (r : Exec Transfer DbCode)
    → Returns r (λ _ u. Same a u.input × InWindow u)
    → Returns
        (elim r as (λ _. Exec (Exchange Request) DbCode) [
          | ret code t ↦ finish_answer code t
          | fault ↦ fault
        ])
        (λ c t. Same a t.array × (is_ok c ≡ true → 3 ≤ t.array.wr_index))
finished a (ret code u) h =
    Returns-map (λ c t. Same a t.array × (is_ok c ≡ true → 3 ≤ t.array.wr_index))
      (finish_answer code u) (finish_answer-Finished code u h.0.roomy h.1)
      (λ c t k. (Same-trans h.0 k.0, k.1))
finished a fault h = h

module _ {app : App} {db : Database} (laws : Lawful app db) where
  pub answer_get-Finished :
      (s : Exchange Request)
      → IsRoomy s.array
      → Returns
          (answer_get db s)
          (λ c t. Same s.array t.array × (is_ok c ≡ true → 3 ≤ t.array.wr_index))
  unfolding answer_get rewind get_header
  answer_get-Finished s h =
      let invoke = s.message.sender_invoke_id in
      let header = 196 ∷ 1 ∷ invoke ∷ 0 ∷ [] in
      let emits : Emits (get_header s.message) header =
        Emits-&&& (write_u8-Emits 196)
          (Emits-&&& (write_u8-Emits 1) (Emits-&&& (write_u8-Emits invoke) (write_u8-Emits 0))) in
      let start = record s.array { wr_index = 0 } in
      let valid : IsValid start = ground (arith, h.valid) in
      let same = rewound-Same header h (omega (arith, h.header_fits)) in
      let u : Exchange Request = record { message = s.message; array = append header start } in
      rw (on_array, emits.run start valid (omega (arith, h.header_fits)))
        (Returns-map (λ c t. Same s.array t.array × (is_ok c ≡ true → 3 ≤ t.array.wr_index))
          (db.in_place u) (laws.in_place u same.roomy)
          (λ c t k. (Same-trans same k.0, λ _. omega (arith, k.1))))

  pub answer_set_or_action-Finished :
      (s : Exchange Request)
      → IsRoomy s.array
      → Returns
          (answer_set_or_action db s)
          (λ c t. Same s.array t.array × (is_ok c ≡ true → 3 ≤ t.array.wr_index))
  unfolding answer_set_or_action
  answer_set_or_action-Finished s h =
      let t : Transfer = record {
        message = s.message;
        input = s.array;
        output = output_window s.array;
      } in
      let run = laws.apart t h (ground (arith, h)) in finished s.array (db.apart t) run
