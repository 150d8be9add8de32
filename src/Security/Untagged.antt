-- ===== src/Security/Untagged.antt =====
-- The packets whose tag `csm_sec_auth_decrypt` does not compare.
use cosemlib.Base.{
  ℕ, ◌+◌, ◌≤◌, ◌<◌, ◌≡◌, true, false, not, ◌&&◌, List, ◌∷◌, ◌++◌, none, arith, length, take,
  Returns, ◌>>=◌,
}
use cosemlib.Base.Words.{u32_mod, put_be32}
use cosemlib.Array.{Array, unread}
use cosemlib.Array.Bounds.{IsValid}
use cosemlib.Array.Consume.{skip, Ahead}
use cosemlib.Services.{Request}
use cosemlib.Security.{
  Gcm, Layout, sec_ok, authentication, encryption, decrypt_layout, auth_decrypt, decrypt_by,
  check_tag,
}
use cosemlib.Security.Cipher.{key, cipher_run, auth_decrypt_header, behind_header}

-- Such a layout names no tag, and stays inside the packet.
record IsUntagged (l : Layout) (n : ℕ) : Type 0 where
  tag_at : l.tag_at ≡ none
  retcode : l.retcode ≡ sec_ok
  data_inside : l.data_size ≤ n
  aad_inside : l.aad_size ≤ 17

decrypt_layout-IsUntagged :
    (sc n : ℕ)
    → authentication sc && not (encryption sc) ≡ false
    → (authentication sc ≡ true → 12 < n)
    → IsUntagged (decrypt_layout sc n) n
unfolding decrypt_layout
decrypt_layout-IsUntagged sc n other long = ground (arith, long)

module _ {G : Type 0} (gcm : Gcm G) (request : Request) where
  -- A packet whose control byte does not ask for authentication alone is accepted whatever bytes follow
  -- its header, the tag included: with at least 12 bytes before it in a buffer that it does not fill, a key
  -- of 16 bytes and, where the byte asks for authentication too, more than 12 bytes behind the header.
  pub auth_decrypt_untagged :
      (title : List ℕ) (sc ic sc_junk ic_junk : ℕ) (body : List ℕ) (a : Array) (ctx : G)
      → IsValid a
      → Ahead (sc ∷ (put_be32 ic ++ body)) a
      → unread a ≡ 5 + length body
      → (authentication sc ≡ true → 12 < length body)
      → ic < u32_mod
      → authentication sc && not (encryption sc) ≡ false
      → length (key gcm request) ≡ 16
      → 12 ≤ a.offset + a.rd_index
      → Returns
          (auth_decrypt gcm request title sc_junk ic_junk (record { array = a; context = ctx }))
          (λ r s. r ≡ sec_ok)
  unfolding put_be32 unread decrypt_by check_tag
  auth_decrypt_untagged title sc ic j k body a ctx v h n long small other kl room =
      let b = skip 4 (skip 1 a) in
      let (vb, behind) = behind_header sc ic body v h in
      let size : unread b ≡ length body = ground (arith, n) in
      let l = decrypt_layout sc (length body) in
      let u = decrypt_layout-IsUntagged sc (length body) other long in
      let iv = take 8 title ++ put_be32 ic in
      let run =
        cipher_run gcm request true iv sc l b ctx vb kl (omega (arith, room))
          (omega (arith, room, behind.inside, v.fits, u.aad_inside))
          (omega (arith, behind.inside, v.fits, u.data_inside)) in
      rw
        (
          auth_decrypt_header gcm request title sc ic j k body a ctx v h small,
          size,
          decrypt_by,
          ◌>>=◌,
          run,
          check_tag,
          u.tag_at,
          size,
        )
        u.retcode
