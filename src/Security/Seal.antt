-- ===== src/Security/Seal.antt =====
-- What `csm_sec_auth_encrypt` makes of a packet that is only authenticated.
use cosemlib.Base.{
  ℕ, ◌+◌, ◌-◌, ◌≤◌, ◌<◌, ◌≡◌, refl, sym, ◌∙◌, true, false, List, [], ◌∷◌, ◌++◌, some, arith, length,
  take, length-splice, append_assoc, ret, ◌>>=◌,
}
use cosemlib.Base.Words.{put_be32}
use cosemlib.Array.{Array, unread, writer_jump}
use cosemlib.Array.Bounds.{IsValid}
use cosemlib.Array.Append.{append, Room, write_buff-Emits}
use cosemlib.Array.Consume.{Ahead}
use cosemlib.Services.{Request}
use cosemlib.Security.{
  Gcm, Layout, sec_ok, authentication, encryption, encrypt_layout, auth_encrypt, on_array,
}
use cosemlib.Security.Cipher.{slice-written, finished, key, with_aad, cipher_no_data}

jump_nowhere :
    (a : Array) → IsValid a → a.offset + a.wr_index < a.size → writer_jump 0 a ≡ ret true a
unfolding writer_jump
jump_nowhere a v room = ground arith

module _ {G : Type 0} (gcm : Gcm G) (request : Request) where
  -- The context and the tag behind the information.
  abbrev pub sealed_by : List ℕ → ℕ → ℕ → List ℕ → G → List ℕ × G
  sealed_by title sc ic info ctx =
      finished gcm request false (take 8 title ++ put_be32 ic) (sc ∷ key gcm request ++ info) [] ctx

  pub auth_encrypt_lem :
      (title : List ℕ) (sc ic : ℕ) (info : List ℕ) (a : Array) (ctx : G)
      → IsValid a
      → Ahead info a
      → unread a ≡ length info
      → 1 ≤ length info
      → Room a 12
      → authentication sc ≡ true
      → encryption sc ≡ false
      → length (key gcm request) ≡ 16
      → 17 ≤ a.offset + a.rd_index
      → let end = sealed_by title sc ic info ctx in
        length (take 12 (end.0)) ≡ 12
        → auth_encrypt gcm request title sc ic (record { array = a; context = ctx })
          ≡ ret sec_ok (record {
            array =
                append
                  (take 12 (end.0))
                  (record a { buff = with_aad gcm request (a.offset + a.rd_index) sc a.buff });
            context = end.1;
          })
  unfolding encrypt_layout auth_encrypt
  auth_encrypt_lem title sc ic info a ctx v h n some_info room au en k high twelve =
      let start = a.offset + a.rd_index in
      let b = record a { buff = with_aad gcm request start sc a.buff } in
      let layout : Layout = record {
        data_size = 0;
        aad_size = 17 + length info;
        tag_at = some (length info);
        retcode = sec_ok;
      } in
      let sizes : encrypt_layout sc (length info) ≡ layout = ground (arith, au, en) in
      let run =
        cipher_no_data gcm request false (take 8 title ++ put_be32 ic) sc layout a ctx refl v k high
          (omega (arith, high, h.inside, v.fits)) in
      let aad =
        slice-written start (sc ∷ key gcm request) info [] h.rest a.buff high
          (omega (arith, h.inside, v.fits)) (omega (arith, k))
          (h.next ∙ sym (append_assoc info [] h.rest)) in
      let same = length-splice (start - 17) (sc ∷ key gcm request) a.buff in
      let vb : IsValid b = omega (arith, same) in
      let tag = take 12 ((sealed_by title sc ic info ctx).0) in
      let wrote = (write_buff-Emits tag).run b vb (omega (arith, twelve, room)) in
      rw
        (
          auth_encrypt,
          ◌>>=◌,
          n,
          sizes,
          run,
          aad,
          on_array,
          jump_nowhere b vb (omega (arith, room)),
          wrote,
          n,
          sizes,
          aad,
        )
        refl
