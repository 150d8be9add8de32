-- ===== src/Services/Layout.antt =====
-- The response of an ACTION in the buffer: the header in front of what the database has written.
use cosemlib.Base.{
  ℕ, ◌+◌, ◌<◌, ◌≤◌, ◌≡◌, refl, sym, ap, ◌∙◌, true, List, [], ◌∷◌, ◌++◌, arith, length, slice,
  splice, slice_add, slice-splice, slice-eq-take, take, drop, drop-drop, drop-splice, drop-append,
  lt→ltb, ret,
}
use cosemlib.Array.{Array, writer_jump}
use cosemlib.Array.Bounds.{IsValid}
use cosemlib.Array.Append.{
  append, append-IsValid, append-append, Room, contents, Emits, Emits-&&&, write_u8-Emits,
}
use cosemlib.Services.{svc_action, is_action, Request, Exchange, DbCode, ok}
use cosemlib.Services.Server.{
  Transfer, response_encoder, response_start, response_tag, return_parameters, access_result,
  finish_answer, response_array,
}

-- The write index moves over `n` bytes.
abbrev pub extend : ℕ → Array → Array
extend n a = record a { wr_index = a.wr_index + n }

writer_jump-extend :
    (n : ℕ) {a : Array} → IsValid a → Room a n → writer_jump n a ≡ ret true (extend n a)
unfolding writer_jump
writer_jump-extend n v h = ground arith

abbrev pub action_header : Request → DbCode → List ℕ
action_header r code = 199 ∷ 1 ∷ r.sender_invoke_id ∷ access_result code ∷ 1 ∷ 0 ∷ []

return_parameters-extend :
    (n : ℕ) {a : Array}
    → IsValid a
    → 0 < n
    → Room a (2 + n)
    → return_parameters n a ≡ ret true (extend n (append (1 ∷ 0 ∷ []) a))
unfolding return_parameters
return_parameters-extend n {a} v some_data room =
    let two = (write_u8-Emits 1).run a v (omega arith) in
    let valid = append-IsValid (1 ∷ []) v (omega arith) in
    let valid' = append-IsValid (0 ∷ []) valid (omega arith) in
    rw (lt→ltb 0 n some_data, two, (write_u8-Emits 0).run (append (1 ∷ []) a) valid (omega arith))
      (writer_jump-extend n valid' (omega arith)
        ∙ ap (λ b. ret true (extend n b)) (append-append (1 ∷ []) (0 ∷ []) a))

response_encoder-extend :
    (r : Request) (code : DbCode) (n : ℕ) {a : Array}
    → r.db_request.service ≡ svc_action
    → IsValid a
    → 0 < n
    → Room a (6 + n)
    → response_encoder r code n a ≡ ret true (extend n (append (action_header r code) a))
unfolding response_encoder response_tag
response_encoder-extend r code n {a} acts v some_data room =
    let tag = response_tag r.db_request.service in
    let e : tag ≡ 199 = ap response_tag acts in
    let first = tag ∷ 1 ∷ r.sender_invoke_id ∷ [] in
    let start : Emits (response_start r) first =
      Emits-&&& (write_u8-Emits tag) (Emits-&&& (write_u8-Emits 1) (write_u8-Emits _)) in
    let second = access_result code ∷ [] in
    let valid = append-IsValid first v (omega arith) in
    let valid' = append-IsValid second valid (omega arith) in
    rw
      (
        start.run a v (omega arith),
        (write_u8-Emits (access_result code)).run (append first a) valid (omega arith),
        ap is_action acts,
        return_parameters-extend n valid' some_data (omega arith),
      )
      (ap (λ b. ret true (extend n (append (1 ∷ 0 ∷ []) b))) (append-append first second a)
        ∙ ap (λ b. ret true (extend n b)) (append-append (first ++ second) (1 ∷ 0 ∷ []) a)
        ∙ ap
            (λ t.
              ret true (
                extend n (append (t ∷ 1 ∷ r.sender_invoke_id ∷ access_result code ∷ 1 ∷ 0 ∷ []) a)))
            e)

-- What the database leaves: its input is still valid, and its output is a window behind the header,
-- with the bytes written and some room.
pub record Wrote (t : Transfer) : Type 0 where
  pub valid : IsValid t.input
  pub offset_eq : t.output.offset ≡ t.input.offset + 6
  pub size_eq : t.output.size ≡ t.input.size
  pub read_in : t.input.offset + t.output.rd_index ≤ t.input.size
  pub fits : t.input.offset + 6 + t.output.wr_index < t.input.size

response_array-IsValid :
    {t : Transfer}
    → Wrote t
    → IsValid (response_array t)
      × Room (response_array t) (6 + t.output.wr_index)
      × ((response_array t).offset + 0 ≡ t.input.offset)
response_array-IsValid {t} w = ground (arith, w)

slice-splice_after :
    (i j n : ℕ) (xs bs : List ℕ)
    → j ≡ i + length xs
    → j ≤ length bs
    → slice j n (splice i xs bs) ≡ slice j n bs
slice-splice_after i j n xs bs e h =
    slice-eq-take j n (splice i xs bs)
    ∙ ap (take n) (
        sym (drop-drop i (length xs) j (splice i xs bs) e)
        ∙ ap (drop (length xs)) (drop-splice i xs bs (omega arith))
        ∙ drop-append xs (drop (i + length xs) bs)
        ∙ ap (λ k. drop k bs) (sym e))
    ∙ sym (slice-eq-take j n bs)

-- After the database has written bytes, at least one, behind the place of the header, the response to an
-- ACTION request succeeds, and what it leaves in the array is the header (the tag, the type, the invoke
-- id, the result and the flags of return parameters that are data) and then exactly those bytes.
pub finish_answer-contents :
    (code : DbCode) (t : Transfer)
    → t.message.db_request.service ≡ svc_action
    → 0 < t.output.wr_index
    → Wrote t
    → (s : Exchange Request) × (finish_answer code t ≡ ret ok s)
      × (contents s.array
          ≡ action_header t.message code
            ++ slice (t.input.offset + 6) t.output.wr_index t.input.buff)
unfolding finish_answer
finish_answer-contents code t acts some_data w =
    let header = action_header t.message code in
    let n = t.output.wr_index in
    let (valid, room, place) = response_array-IsValid w in
    let o = t.input.offset in
    let encoded = response_encoder-extend t.message code n acts valid some_data room in
    let count : 0 + 6 + n ≡ 6 + n = omega arith in
    (
      record {
        message = t.message;
        array = record t.input { wr_index = 6 + n; buff = splice o header t.input.buff };
      },
      rw (finish_answer, encoded)
          (ap
            (λ p. ret ok (record {
              message = t.message;
              array = record t.input { wr_index = 6 + n; buff = splice p header t.input.buff };
            }))
            place),
      slice_add o (o + 6) 6 n (splice o header t.input.buff) refl
          ∙ ap (λ l. l ++ slice (o + 6) n (splice o header t.input.buff))
              (slice-splice o header t.input.buff (omega (arith, w.valid, w)))
          ∙ ap (λ l. header ++ l)
              (slice-splice_after o (o + 6) n header t.input.buff refl (omega (arith, w.valid, w))),
    )
