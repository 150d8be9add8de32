-- ===== src/Channel/Hls/Mutual.antt =====
-- The fourth pass of one side, checked as the third pass of the other.
use cosemlib.Base.{
  ℕ, ◌+◌, ◌≤◌, ◌<◌, ◌≡◌, sym, ap, ◌∙◌, inr, Bool, true, false, List, [], ◌∷◌, ◌++◌, some, arith,
  length, take, drop, Exec, ret, fault, Returns, Returns-map,
}
use mathlib.Core.Path.{subst}
use cosemlib.Base.Words.{put_be32}
use cosemlib.Array.{Array, unread}
use cosemlib.Array.Append.{contents}
use cosemlib.Array.Bounds.{IsValid}
use cosemlib.Array.Consume.{Ahead}
use cosemlib.Association.{Association, Challenge, Hal}
use cosemlib.Services.{Request}
use cosemlib.Security.{Gcm, Sealed}
use cosemlib.Security.Cipher.{key, finished}
use cosemlib.Security.Tag.{tag_of}
use cosemlib.Channel.{Stack}
use cosemlib.Channel.Hls.{max_hls_size, find_state, hls_pass3, hls_pass4}
use cosemlib.Channel.Hls.Check.{bytes_of, hls_pass3_lem}
use cosemlib.Channel.Hls.Answer.{hls_pass4_lem}

-- One side, as it stands before its pass, with the handshake of the association on its channel.
pub record Side (G : Type 0) : Type 0 where
  pub hal : Hal
  pub gcm : Gcm G
  pub request : Request
  pub stack : Stack
  pub asso : Association
  pub context : G

-- Both sides have the key, and the tag of a vector and data that are only authenticated depends on
-- neither side nor on what the cipher did before.
pub record Shared {G H : Type 0} (giver : Side G) (checker : Side H) : Type 0 where
  pub same_key : key giver.gcm giver.request ≡ key checker.gcm checker.request
  pub same_tag :
      (iv aad : List ℕ)
      → take 12 (tag_of checker.gcm checker.request iv aad checker.context)
        ≡ take 12 ((finished giver.gcm giver.request false iv aad [] giver.context).0)
  pub long_tag :
      (iv aad : List ℕ)
      → length (take 12 ((finished giver.gcm giver.request false iv aad [] giver.context).0)) ≡ 12
  pub same_title : take 8 checker.asso.client_app_title ≡ take 8 giver.hal.system_title
  pub same_challenge : bytes_of checker.asso.handshake.stoc ≡ bytes_of giver.asso.handshake.ctos

-- A challenge of 1 to 64 bytes.
pub record IsChallenge (c : Challenge) : Type 0 where
  pub in_value : c.size ≤ length c.value
  pub from_1 : 1 ≤ c.size
  pub to_64 : c.size ≤ 64

abbrev pub give : {G : Type 0} → Side G → Array → Exec (Sealed G) Bool
give x a = hls_pass4 x.hal x.gcm x.request x.stack (record { array = a; context = x.context })

abbrev pub check : {G : Type 0} → Side G → Array → Exec (Sealed G) Bool
check x a = hls_pass3 x.hal x.gcm x.request x.stack (record { array = a; context = x.context })

abbrev array_of : {G : Type 0} → Array → Exec (Sealed G) Bool → Array
array_of a (ret r s) = s.array
array_of a fault = a

-- What the fourth pass leaves in the array of one side, without the tag and the length of its octet string, is accepted by the third
-- pass of the other, if both have the key and ciphers that agree on the tags of data that is only
-- authenticated, and the other side has the title and the challenge of the first; the arrays have room as
-- both passes need it, and both challenges 1 to 64 bytes.
pub hls_pass3-hls_pass4 :
    {G H : Type 0} (giver : Side G) (checker : Side H) (a b received : Array) (context : G)
    → Shared giver checker
    → find_state giver.stack giver.request ≡ some giver.asso
    → find_state checker.stack checker.request ≡ some checker.asso
    → length (key giver.gcm giver.request) ≡ 16
    → IsChallenge giver.asso.handshake.ctos
    → IsChallenge checker.asso.handshake.stoc
    → IsValid a
    → a.rd_index ≡ 0
    → a.wr_index ≡ 0
    → a.offset + 19 < a.size
    → max_hls_size ≤ a.offset
    → give giver a ≡ ret true (record { array = b; context = context })
    → IsValid received
    → Ahead (drop 2 (contents b)) received
    → unread received ≡ 17
    → max_hls_size ≤ received.offset
    → Returns (check checker received) (λ r s. (r ≡ true) × (s.array.offset ≡ received.offset))
hls_pass3-hls_pass4 giver checker a b received context shared at_g at_c k ctos_fits stoc_fits va rd
      wr room high gave vr ahead n high' =
    let iv = take 8 giver.hal.system_title ++ put_be32 0x01234567 in
    let aad = 0x10 ∷ key giver.gcm giver.request ++ bytes_of giver.asso.handshake.ctos in
    let tag = take 12 ((finished giver.gcm giver.request false iv aad [] giver.context).0) in
    let twelve = shared.long_tag iv aad in
    let (b', run, o, r, bytes) =
      hls_pass4_lem giver.hal giver.gcm giver.request giver.stack giver.asso a giver.context va rd
        wr room high at_g ctos_fits.in_value ctos_fits.from_1 ctos_fits.to_64 k twelve in
    let same_array : b' ≡ b = ap (array_of a) (sym run ∙ gave) in
    let there : Ahead (0x10 ∷ (put_be32 0x01234567 ++ tag)) received =
      subst (λ xs. Ahead (drop 2 xs) received) (sym (ap contents same_array) ∙ bytes) ahead in
    let same_key : length (key checker.gcm checker.request) ≡ 16 =
      ap length (sym shared.same_key) ∙ k in
    let accepted : take 12 (
          tag_of checker.gcm checker.request
            (take 8 checker.asso.client_app_title ++ put_be32 0x01234567)
            (0x10 ∷ key checker.gcm checker.request ++ bytes_of checker.asso.handshake.stoc)
            checker.context)
        ≡ tag =
      rw (shared.same_title, sym shared.same_key, shared.same_challenge) (shared.same_tag iv aad) in
    let outcome =
      hls_pass3_lem checker.hal checker.gcm checker.request checker.stack checker.asso 0x10
        0x01234567 tag received checker.context vr there n twelve (omega arith) high' at_c
        stoc_fits.in_value stoc_fits.from_1 stoc_fits.to_64 same_key in
    Returns-map _ (check checker received) outcome
      (λ r s (both, place). (both.1 (inr accepted), place))
