-- ===== src/Security/Cipher.antt =====
-- What `csm_sec_auth_decrypt` and `csm_sec_auth_encrypt` do with GCM: the run of both on any layout.
use cosemlib.Base.{
  ℕ, ◌+◌, ◌-◌, ◌≤◌, ◌<◌, ◌≡◌, refl, sym, ap, ◌∙◌, Bool, false, List, [], ◌∷◌, ◌++◌, arith, length,
  take, drop, slice, splice, splice-nil, slice_add, slice-splice, length-take, slice-eq-take,
  drop-drop, drop-splice, drop-append, length-splice, append_assoc, take-append, ltb, le→leb,
  if◌then◌else◌, ret, ◌>>=◌,
}
use cosemlib.Base.Words.{u32_mod, put_be32}
use cosemlib.Array.{Array, index, unread, peek, poke}
use cosemlib.Array.Bounds.{IsValid}
use cosemlib.Services.{Request}
use cosemlib.Array.Consume.{
  skip, skip-IsValid, Ahead, Ahead-left, Ahead-right, read_u8_next, read_u32-Reads,
}
use cosemlib.Security.{Gcm, Layout, cipher, on_array, auth_decrypt, decrypt_by, decrypt_layout}

-- A write inside the object, and a read inside it.
pub poke_inside :
    (i : ℕ) (xs : List ℕ) (a : Array)
    → i + length xs ≤ length a.buff
    → poke i xs a ≡ ret tt (record a { buff = splice i xs a.buff })
unfolding poke
poke_inside i xs a h = rw (le→leb (i + length xs) (length a.buff) h) refl

pub peek_inside :
    (i n : ℕ) (a : Array) → i + n ≤ length a.buff → peek i n a ≡ ret (slice i n a.buff) a
unfolding peek
peek_inside i n a h = rw (le→leb (i + n) (length a.buff) h) refl

-- What stands behind a write.
pub drop-splice_behind :
    (i j : ℕ) (xs bs : List ℕ)
    → j ≡ i + length xs
    → j ≤ length bs
    → drop j (splice i xs bs) ≡ drop j bs
drop-splice_behind i j xs bs e h =
    sym (drop-drop i (length xs) j (splice i xs bs) e)
    ∙ ap (drop (length xs)) (drop-splice i xs bs (omega (arith, e, h)))
    ∙ drop-append xs (drop (i + length xs) bs)
    ∙ ap (λ k. drop k bs) (sym e)

-- The buffer behind the 17 bytes that are written before `start`.
module _ (start : ℕ) (xs info received rest bs : List ℕ) (room : 17 ≤ start)
    (inside : start ≤ length bs) (size : length xs ≡ 17)
    (next : drop start bs ≡ (info ++ received) ++ rest) where
  abbrev pub written : List ℕ
  written = splice (start - 17) xs bs

  pub drop-written : drop start written ≡ info ++ (received ++ rest)
  drop-written =
      drop-splice_behind (start - 17) start xs bs (omega (arith, size, room)) inside
      ∙ next
      ∙ append_assoc info received rest

  pub slice-written : slice (start - 17) (17 + length info) written ≡ xs ++ info
  slice-written =
      let front : slice (start - 17) 17 written ≡ xs =
        ap (λ n. slice (start - 17) n written) (sym size)
        ∙ slice-splice (start - 17) xs bs (omega (arith, size, room, inside)) in
      let back : slice start (length info) written ≡ info =
        slice-eq-take start (length info) written
        ∙ ap (take (length info)) drop-written
        ∙ take-append info (received ++ rest) in
      slice_add (start - 17) start 17 (length info) written (omega (arith, room))
      ∙ ap (λ t. t ++ slice start (length info) written) front
      ∙ ap (λ t. xs ++ t) back

  pub slice-received : length received ≡ 12 → slice (start + length info) 12 written ≡ received
  slice-received l =
      slice-eq-take (start + length info) 12 written
      ∙ ap (take 12) (
          sym (drop-drop start (length info) (start + length info) written refl)
          ∙ ap (drop (length info)) drop-written
          ∙ drop-append info (received ++ rest))
      ∙ rw (sym l) (take-append received rest)

module _ {G : Type 0} (gcm : Gcm G) (request : Request) where
  -- The calls of GCM, in their order: what `gcm_update` and `gcm_finish` give.
  abbrev pub updated : Bool → List ℕ → List ℕ → List ℕ → G → List ℕ × G
  updated decrypts iv aad input ctx =
      gcm.gcm_update request.channel_id input
        (gcm.gcm_init request.channel_id request.llc.dsap decrypts iv aad ctx)

  abbrev pub finished : Bool → List ℕ → List ℕ → List ℕ → G → List ℕ × G
  finished decrypts iv aad input ctx =
      gcm.gcm_finish request.channel_id ((updated decrypts iv aad input ctx).1)

  abbrev pub key : List ℕ
  key = take 16 (gcm.get_key request.llc.dsap)

  -- The buffer with the control byte and the key in front of the data.
  abbrev pub with_aad : ℕ → ℕ → List ℕ → List ℕ
  with_aad start sc bytes = splice (start - 17) (sc ∷ key) bytes

  -- The run on any layout that stays inside the buffer.
  pub cipher_run :
      (decrypts : Bool) (iv : List ℕ) (sc : ℕ) (l : Layout) (a : Array) (ctx : G)
      → IsValid a
      → length key ≡ 16
      → 17 ≤ a.offset + a.rd_index
      → a.offset + a.rd_index - 17 + l.aad_size ≤ length a.buff
      → a.offset + a.rd_index + l.data_size ≤ length a.buff
      → let start = a.offset + a.rd_index in
        let buff' = with_aad start sc a.buff in
        let aad = slice (start - 17) l.aad_size buff' in
        let input = slice start l.data_size buff' in
        cipher gcm request decrypts iv sc l (record { array = a; context = ctx })
        ≡ ret ((finished decrypts iv aad input ctx).0) (record {
          array = record a {
            buff = splice start (take l.data_size ((updated decrypts iv aad input ctx).0)) buff';
          };
          context = (finished decrypts iv aad input ctx).1;
        })
  unfolding cipher
  cipher_run d iv sc l a ctx v k h fits fits' =
      let start = a.offset + a.rd_index in
      let place : index a a.rd_index ≡ start = omega arith in
      let high : ltb start 17 ≡ false = ground (arith, h) in
      let buff' = with_aad start sc a.buff in
      let a' = record a { buff = buff' } in
      let aad = slice (start - 17) l.aad_size buff' in
      let input = slice start l.data_size buff' in
      let out = (updated d iv aad input ctx).0 in
      let same : length buff' ≡ length a.buff = length-splice (start - 17) (sc ∷ key) a.buff in
      let wrote = poke_inside (start - 17) (sc ∷ key) a (omega (arith, k, v.fits, v.read_in)) in
      let read = peek_inside (start - 17) l.aad_size a' (omega (arith, same, fits)) in
      let taken = peek_inside start l.data_size a' (omega (arith, same, fits')) in
      let put_back =
        poke_inside start (take l.data_size out) a'
          (omega (arith, same, fits', length-take l.data_size out)) in
      rw (place, high, if◌then◌else◌, ◌>>=◌, on_array, wrote, read, taken, put_back)

  -- Without data nothing but the front of the packet is written.
  pub cipher_no_data :
      (decrypts : Bool) (iv : List ℕ) (sc : ℕ) (l : Layout) (a : Array) (ctx : G)
      → l.data_size ≡ 0
      → IsValid a
      → length key ≡ 16
      → 17 ≤ a.offset + a.rd_index
      → a.offset + a.rd_index - 17 + l.aad_size ≤ length a.buff
      → let start = a.offset + a.rd_index in
        let aad = slice (start - 17) l.aad_size (with_aad start sc a.buff) in
        let end = finished decrypts iv aad [] ctx in
        cipher gcm request decrypts iv sc l (record { array = a; context = ctx })
        ≡ ret
            (end.0)
            (record { array = record a { buff = with_aad start sc a.buff }; context = end.1 })
  cipher_no_data d iv sc l a ctx none_left v k h fits =
      let start = a.offset + a.rd_index in
      let buff' = with_aad start sc a.buff in
      let aad = slice (start - 17) l.aad_size buff' in
      let empty : slice start l.data_size buff' ≡ [] =
        ap (λ n. slice start n buff') none_left ∙ slice-eq-take start 0 buff' in
      let out = (updated d iv aad [] ctx).0 in
      let same : splice start (take l.data_size out) buff' ≡ buff' =
        ap (λ n. splice start (take n out) buff') none_left ∙ splice-nil start buff' in
      cipher_run d iv sc l a ctx v k h fits (omega (arith, none_left, v.fits, v.read_in))
      ∙ rw (empty, same)

  -- `csm_sec_auth_decrypt` behind the header of the packet.
  pub auth_decrypt_header :
      (title : List ℕ) (sc ic sc_junk ic_junk : ℕ) (body : List ℕ) (a : Array) (ctx : G)
      → IsValid a
      → Ahead (sc ∷ (put_be32 ic ++ body)) a
      → ic < u32_mod
      → let b = skip (length (put_be32 ic)) (skip 1 a) in
        auth_decrypt gcm request title sc_junk ic_junk (record { array = a; context = ctx })
        ≡ decrypt_by gcm request
            (take 8 title ++ put_be32 ic)
            sc
            (decrypt_layout sc (unread b))
            (record { array = b; context = ctx })
  unfolding auth_decrypt
  auth_decrypt_header title sc ic j k body a ctx v h small =
      let first = read_u8_next sc (put_be32 ic ++ body) v h in
      let ahead = Ahead-left (put_be32 ic) body first.2 in
      let counter = (read_u32-Reads ic small).run _ first.1 ahead in
      rw (auth_decrypt, ◌>>=◌, on_array, first.0, counter)

pub behind_header :
    (sc ic : ℕ) (body : List ℕ) {a : Array}
    → IsValid a
    → Ahead (sc ∷ (put_be32 ic ++ body)) a
    → let b = skip (length (put_be32 ic)) (skip 1 a) in IsValid b × Ahead body b
behind_header sc ic body v h =
    let first = read_u8_next sc (put_be32 ic ++ body) v h in
    let ahead = Ahead-left (put_be32 ic) body first.2 in
    (skip-IsValid _ (first.1) ahead.inside, Ahead-right (put_be32 ic) body first.2)
