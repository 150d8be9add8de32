-- ===== src/Association/Faults.antt =====
-- What `csm_asso_decoder` makes of requests at the edges of its chain.
use cosemlib.Base.{
  ℕ, ◌≤◌, ◌<◌, ◌≡◌, ◌≢◌, refl, Bool, true, false, List, [], ◌∷◌, ◌==◌, arith, Exec, ret, fault,
  Returns, Returns-bind,
}
use cosemlib.Array.{Array, unread, read_u8}
use cosemlib.Array.Bounds.{IsValid}
use cosemlib.Array.Consume.{skip, skip-IsValid, Ahead, Ahead-left, Ahead-right}
use cosemlib.Ber
use cosemlib.Ber.{Ber, BerTag, BerLength, id_of, first_tag, no_tag, read_tag, read_len}
use cosemlib.Ber.Decode.{decode-Reads}
use cosemlib.Association.{Session, Hal, Codec, decode_ber, aarq}
use cosemlib.Association.Decode.{decode_chain, decoder, aarq_decoders}

-- With at most one byte left no header can be decoded.
decode-exhausted :
    (ber : Ber) {a : Array}
    → IsValid a
    → unread a ≤ 1
    → Returns (Ber.decode ber a) (λ r _. r.0 ≡ false)
unfolding Ber.decode read_u8 unread
decode-exhausted ber v h = ground arith

decode_ber-exhausted :
    (s : Session) → IsValid s.array → unread s.array ≤ 1 → Returns (decode_ber s) (λ r _. r ≡ false)
unfolding decode_ber
decode_ber-exhausted s v h = go (Ber.decode s.ber s.array) (decode-exhausted s.ber v h)
  where
    go :
        (r : Exec Array (Bool × Ber))
        → Returns r (λ r _. r.0 ≡ false)
        → Returns
            (elim r as (λ x. Exec Session Bool) [
              | ret r a ↦ ret (r.0) (record s { ber = r.1; array = a })
              | fault ↦ fault
            ])
            (λ r _. r ≡ false)
    go (ret r a) h = h
    go fault h = h

-- The decoding fails where the field at hand is the last entry of the chain and its decoder, though it
-- succeeds, leaves at most one byte unread in a valid array: the loop decodes one more header behind
-- every field. So a request that ends with its user information is refused.
pub decode_chain_last_field :
    (c : Codec) (s : Session) {s' : Session}
    → s.ber.tag.tag ≡ c.tag
    → c.run s ≡ ret true s'
    → IsValid s'.array
    → unread s'.array ≤ 1
    → Returns (decode_chain (c ∷ []) s) (λ r _. r ≡ false)
unfolding decode_chain
decode_chain_last_field c s {s'} same run v h =
    let reached : (s.ber.tag.tag == c.tag) ≡ true = ground arith in
    rw (reached, run)
      (Returns-bind (λ r _. r ≡ false) (decode_ber s') _ (decode_ber-exhausted s' v h)
        (λ more _ stopped. rw stopped))

pub decode_ber-run :
    (s : Session) (r : Bool × Ber) (a : Array)
    → Ber.decode s.ber s.array ≡ ret r a
    → decode_ber s ≡ ret (r.0) (record s { ber = r.1; array = a })
unfolding decode_ber
decode_ber-run s r a e = rw (e, decode_ber)

-- The header of a field, as `csm_ber_decode` stores it.
abbrev pub header : ℕ → ℕ → Ber
header t n = record { tag = first_tag t; length = record { length = n; nbytes = 1 } }

decode_ber-header :
    (t n : ℕ) (s : Session)
    → t < 256
    → id_of t ≢ 31
    → t ≢ 29
    → t ≢ 30
    → n < 128
    → IsValid s.array
    → Ahead (t ∷ n ∷ []) s.array
    → decode_ber s ≡ ret true (record s { ber = header t n; array = skip 2 s.array })
decode_ber-header t n s h i k l m v ahead =
    decode_ber-run s (true, header t n) (skip 2 s.array)
      ((decode-Reads t n s.ber h i k l m).run s.array v ahead)

-- No entry of the chain has the tag.
abbrev pub Unknown : ℕ → List Codec → Type 0
Unknown t [] = Unit {0}
Unknown t (c ∷ cs) = (t ≢ c.tag) × Unknown t cs

-- A header whose tag no entry has passes through the whole chain, mandatory entries included: the
-- decoding succeeds and nothing changes.
pub decode_chain-Unknown :
    (cs : List Codec) (s : Session) → Unknown s.ber.tag.tag cs → decode_chain cs s ≡ ret true s
unfolding decode_chain
decode_chain-Unknown [] s h = refl
decode_chain-Unknown (c ∷ cs) s h = ground (arith, decode_chain-Unknown cs s h.1)

unread-skip : (a : Array) → unread a ≡ 4 → unread (skip 2 a) ≡ 2
unfolding unread
unread-skip a h = ground arith

-- `csm_asso_decoder` accepts an AARQ of the four bytes 60 02 t 00, and leaves the association as it was,
-- where t is a tag of one byte (its low five bits are not 31) other than 29 and 30 that no entry of the chain has: none of
-- the mandatory fields is there. The four bytes are all that is unread in a valid array, and do not reach
-- the last byte of its buffer.
pub decoder-Unknown :
    (hal : Hal) (t : ℕ) (s : Session)
    → t < 256
    → id_of t ≢ 31
    → t ≢ 29
    → t ≢ 30
    → Unknown t (aarq_decoders hal)
    → IsValid s.array
    → Ahead (aarq ∷ 2 ∷ t ∷ 0 ∷ []) s.array
    → unread s.array ≡ 4
    → Returns (decoder hal aarq s) (λ r s'. (r ≡ true) × (s'.asso ≡ s.asso))
unfolding decoder
decoder-Unknown hal t s h i k l u v ahead four =
    let first = Ahead-left (aarq ∷ 2 ∷ []) (t ∷ 0 ∷ []) ahead in
    let s1 = record s { ber = header aarq 2; array = skip 2 s.array } in
    let s2 = record s1 { ber = header t 0; array = skip 2 s1.array } in
    let outer : decode_ber s ≡ ret true s1 =
      decode_ber-header aarq 2 s (omega arith) (omega arith) (omega arith) (omega arith)
        (omega arith) v first in
    let inner : decode_ber s1 ≡ ret true s2 =
      decode_ber-header t 0 s1 h i k l (omega arith) (skip-IsValid 2 v first.inside)
        (Ahead-right (aarq ∷ 2 ∷ []) (t ∷ 0 ∷ []) ahead) in
    let two : unread (skip 2 s.array) ≡ 2 = unread-skip s.array four in
    rw (outer, two, inner, decode_chain-Unknown (aarq_decoders hal) s2 u) (refl, refl)
