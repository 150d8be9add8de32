-- ===== src/Security/Tag.antt =====
-- When a packet that is only authenticated is accepted.
use cosemlib.Base.{
  ℕ, ◌+◌, ◌-◌, ◌≤◌, ◌<◌, ◌≡◌, ◌↔◌, refl, true, false, List, [], ◌∷◌, ◌++◌, some, arith, length,
  take, length-splice, length-append, same_bytes, same_bytes_iff, if◌then◌else◌, ◌>>=◌, Returns,
}
use cosemlib.Base.Words.{u32_mod, put_be32}
use cosemlib.Array.{Array, index, unread}
use cosemlib.Array.Bounds.{IsValid}
use cosemlib.Array.Consume.{skip, Ahead}
use cosemlib.Services.{Request}
use cosemlib.Security.Cipher.{
  peek_inside, slice-written, slice-received, finished, key, with_aad, cipher_no_data,
  auth_decrypt_header, behind_header,
}
use cosemlib.Security.{
  Layout, sec_ok, auth_failure, authentication, encryption, Gcm, decrypt_layout, auth_decrypt,
  decrypt_by, check_tag, on_array,
}

same_bytes-sec_ok :
    (xs ys : List ℕ) → ((if same_bytes xs ys then sec_ok else auth_failure) ≡ sec_ok) ↔ (xs ≡ ys)
same_bytes-sec_ok xs ys = ground (arith, same_bytes_iff xs ys)

module _ {G : Type 0} (gcm : Gcm G) (request : Request) where
  -- The tag of no data.
  abbrev pub tag_of : List ℕ → List ℕ → G → List ℕ
  tag_of iv aad ctx = (finished gcm request true iv aad [] ctx).0

  -- A packet that is only authenticated, with at least 12 bytes before it in a buffer that it does not fill,
  -- and nothing written behind it: with a key of 16 bytes, `csm_sec_auth_decrypt` returns, and the packet is
  -- accepted exactly when its last 12 bytes are the first 12 of the tag that the cipher gives for the vector of
  -- the title and the counter, with the control byte, the key and the information as its data.
  pub auth_decrypt_lem :
      (title : List ℕ) (sc ic sc_junk ic_junk : ℕ) (info received : List ℕ) (a : Array) (ctx : G)
      → IsValid a
      → Ahead (sc ∷ (put_be32 ic ++ (info ++ received))) a
      → unread a ≡ 17 + length info
      → length received ≡ 12
      → ic < u32_mod
      → authentication sc ≡ true
      → encryption sc ≡ false
      → length (key gcm request) ≡ 16
      → 12 ≤ a.offset + a.rd_index
      → Returns
          (auth_decrypt gcm request title sc_junk ic_junk (record { array = a; context = ctx }))
          (λ r s. (r ≡ sec_ok) ↔ (
            take 12 (tag_of (take 8 title ++ put_be32 ic) (sc ∷ key gcm request ++ info) ctx)
            ≡ received))
  unfolding decrypt_layout put_be32 unread decrypt_by check_tag
  auth_decrypt_lem title sc ic j k info received a ctx v h n l small au en kl room =
      let b = skip 4 (skip 1 a) in
      let (vb, behind) = behind_header sc ic (info ++ received) v h in
      let total = length-append info received in
      let size : unread b ≡ 12 + length info = ground (arith, n) in
      let layout : Layout = record {
        data_size = 0;
        aad_size = 17 + length info;
        tag_at = some (length info);
        retcode = sec_ok;
      } in
      let sizes : decrypt_layout sc (12 + length info) ≡ layout = ground (arith, au, en) in
      let run =
        cipher_no_data gcm request true (take 8 title ++ put_be32 ic) sc layout b ctx refl vb kl
          (omega (arith, room)) (omega (arith, room, behind.inside, v.fits, total, l)) in
      let start = a.offset + (a.rd_index + 1 + 4) in
      let aad =
        slice-written start (sc ∷ key gcm request) info received behind.rest a.buff
          (omega (arith, room)) (omega (arith, behind.inside, v.fits)) (omega (arith, kl))
          behind.next in
      let last =
        slice-received start (sc ∷ key gcm request) info received behind.rest a.buff
          (omega (arith, room)) (omega (arith, behind.inside, v.fits)) (omega (arith, kl))
          behind.next l in
      let place : index b b.rd_index + length info ≡ start + length info =
        omega (arith, v.small, behind.inside) in
      let seen =
        peek_inside (start + length info) 12
          (record b { buff = with_aad gcm request start sc a.buff })
          (omega (
            arith,
            length-splice (start - 17) (sc ∷ key gcm request) a.buff,
            behind.inside,
            v.fits,
            total,
            l,
          )) in
      rw
        (
          auth_decrypt_header gcm request title sc ic j k (info ++ received) a ctx v h small,
          size,
          sizes,
          decrypt_by,
          ◌>>=◌,
          run,
          aad,
          check_tag,
          on_array,
          place,
          seen,
          last,
          size,
          sizes,
        )
        (same_bytes-sec_ok
          (take 12 (tag_of (take 8 title ++ put_be32 ic) (sc ∷ key gcm request ++ info) ctx))
          received)
