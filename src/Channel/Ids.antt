-- ===== src/Channel/Ids.antt =====
-- The ids of the channels.
use cosemlib.Base.{
  ℕ, zero, suc, ◌+◌, ◌%◌, ◌<◌, ◌≡◌, ◌≢◌, ◌⊎◌, inl, inr, refl, ap, ◌∙◌, List, [], ◌∷◌, some, ◌==◌,
  get_elem?, set, length, arith, Bool-cases, Option-cases,
}
use cosemlib.Base.Words.{u8_mod}
use cosemlib.Association.{Association, Config}
use cosemlib.Channel.{with_id, Channel, Stack, init, new, new_from, disconnect, invalid}

-- From the channel `i` on: each is free or has the id that follows its index.
abbrev pub IdsFrom : ℕ → List Channel → Type 0
IdsFrom i [] = Unit {0}
IdsFrom i (c ∷ cs) =
    ((c.request.channel_id ≡ invalid) ⊎ (c.request.channel_id ≡ i + 1)) × IdsFrom (i + 1) cs

abbrev pub AllTaken : List Channel → Type 0
AllTaken [] = Unit {0}
AllTaken (c ∷ cs) = (c.request.channel_id ≢ invalid) × AllTaken cs

new_from-IdsFrom :
    (i : ℕ) (cs : List Channel) → i + length cs < 256 → IdsFrom i cs → IdsFrom i ((new_from i cs).1)
unfolding new_from
new_from-IdsFrom i [] h k = tt
new_from-IdsFrom i (c ∷ cs) h k =
    let rest = new_from-IdsFrom (i + 1) cs (omega arith) (k.1) in
    elim (Bool-cases (c.request.channel_id == invalid)) [
      | inl free ↦ rw free (inr (omega arith), k.1)
      | inr taken ↦ rw taken (k.0, rest)
    ]

free-IdsFrom :
    (i j : ℕ) (cs : List Channel) (c : Channel)
    → c.request.channel_id ≡ invalid
    → IdsFrom i cs
    → IdsFrom i (set cs j c)
free-IdsFrom i j [] c h k = tt
free-IdsFrom i zero (d ∷ cs) c h k = (inl h, k.1)
free-IdsFrom i (suc j) (d ∷ cs) c h k = (k.0, free-IdsFrom (i + 1) j cs c h k.1)

-- What `new_from` returns: 0 where no channel is free, or the id of a channel that was free.
new_from-granted :
    (i : ℕ) (cs : List Channel)
    → i + length cs < 256
    → (((new_from i cs).0 ≡ invalid) × AllTaken cs)
      ⊎ ((k : ℕ) × (c : Channel) × ((new_from i cs).0 ≡ i + k + 1)
          × (get_elem? cs k ≡ some c)
          × (c.request.channel_id ≡ invalid)
          × ((new_from i cs).1 ≡ set cs k (with_id (i + k + 1) c)))
unfolding new_from
new_from-granted i [] h = inl (refl, tt)
new_from-granted i (c ∷ cs) h = elim (Bool-cases (c.request.channel_id == invalid)) [
  | inl free ↦
      let e : (i + 1) % u8_mod ≡ i + 0 + 1 = omega arith in
      let z : c.request.channel_id ≡ invalid = ground arith in
      rw (free, e) (inr (0, c, refl, refl, z, refl))
  | inr taken ↦
      let z : c.request.channel_id ≢ invalid = ground arith in
      rw taken (elim (new_from-granted (i + 1) cs (omega arith)) [
        | inl r ↦ inl (r.0, (z, r.1))
        | inr (k, d, id, found, was, now) ↦
            let e : i + suc k + 1 ≡ i + 1 + k + 1 = omega arith in
            inr (suc k, d, rw e id, found, was, rw e (ap (λ t. c ∷ t) now))
      ])
]

-- `csm_channel_new` gives out the first free channel: the id that it returns is the index plus 1, the
-- channel was free and now has it, and nothing else changes. It returns 0, and changes nothing, where
-- no channel is free. There are fewer than 256 channels.
pub new-granted :
    (s : Stack)
    → length s.channels < 256
    → (((new s).0 ≡ invalid) × AllTaken s.channels)
      ⊎ ((k : ℕ) × (c : Channel) × ((new s).0 ≡ k + 1)
          × (get_elem? s.channels k ≡ some c)
          × (c.request.channel_id ≡ invalid)
          × ((new s).1 ≡ record s { channels = set s.channels k (with_id (k + 1) c) }))
unfolding new
new-granted s h = elim (new_from-granted 0 s.channels (omega (arith, h))) [
  | inl r ↦ inl r
  | inr (k, c, id, found, was, now) ↦
      let e : 0 + k + 1 ≡ k + 1 = omega arith in
      let now' : (new_from 0 s.channels).1 ≡ set s.channels k (with_id (k + 1) c) = rw e at now in
      inr (k, c, id ∙ e, found, was, ap (λ cs. record s { channels = cs }) now')
]

-- A connection, or the end of the one on a channel.
pub data Event : Type 0 where
  connect : Event
  hang_up : ℕ → Event

unfoldable pub handle : List Event → Stack → Stack
handle [] s = s
handle (connect ∷ es) s = handle es (new s).1
handle (hang_up i ∷ es) s = handle es (disconnect i s)

length-set : {A : Type 0} (xs : List A) (i : ℕ) (x : A) → length (set xs i x) ≡ length xs
length-set [] i x = refl
length-set (y ∷ xs) zero x = refl
length-set (y ∷ xs) (suc i) x = ap suc (length-set xs i x)

length-new_from : (i : ℕ) (cs : List Channel) → length (new_from i cs).1 ≡ length cs
unfolding new_from
length-new_from i [] = refl
length-new_from i (c ∷ cs) = elim (Bool-cases (c.request.channel_id == invalid)) [
  | inl free ↦ rw free refl
  | inr taken ↦ rw taken (ap suc (length-new_from (i + 1) cs))
]

-- What `csm_channel_new` and `csm_channel_disconnect` keep.
abbrev Sound : Stack → Type 0
Sound s = (length s.channels < 256) × IdsFrom 0 s.channels

new-Sound : (s : Stack) → Sound s → Sound (new s).1
unfolding new
new-Sound s h = (
  omega (arith, length-new_from 0 s.channels, h.0),
  new_from-IdsFrom 0 s.channels (omega (arith, h.0)) h.1,
)

disconnect-Sound : (i : ℕ) (s : Stack) → Sound s → Sound (disconnect i s)
unfolding disconnect
disconnect-Sound i s h = elim (Option-cases (get_elem? s.channels i)) [
  | inl gone ↦ rw (gone, disconnect) h
  | inr (c, found) ↦
      let freed = with_id invalid c in
      rw (found, disconnect)
        (
          omega (arith, length-set s.channels i freed, h.0),
          free-IdsFrom 0 i s.channels freed refl h.1,
        )
]

handle-Sound : (es : List Event) (s : Stack) → Sound s → Sound (handle es s)
unfolding handle
handle-Sound [] s h = h
handle-Sound (connect ∷ es) s h = handle-Sound es (new s).1 (new-Sound s h)
handle-Sound (hang_up i ∷ es) s h = handle-Sound es (disconnect i s) (disconnect-Sound i s h)

id_at :
    (i j : ℕ) (cs : List Channel) (c : Channel)
    → IdsFrom i cs
    → get_elem? cs j ≡ some c
    → c.request.channel_id ≢ invalid
    → c.request.channel_id ≡ i + j + 1
id_at i j [] c h e live = cc
id_at i zero (d ∷ cs) c h e live = ground arith
id_at i (suc j) (d ∷ cs) c h e live = let k = id_at (i + 1) j cs c h.1 e live in omega (arith, k)

init-IdsFrom :
    (i : ℕ) (channels : List Channel) (assos : List Association) (configs : List Config)
    → IdsFrom i (init channels assos configs).channels
unfolding init
init-IdsFrom i [] assos configs = tt
init-IdsFrom i (c ∷ cs) assos configs = (inl refl, init-IdsFrom (i + 1) cs assos configs)

length-init :
    (channels : List Channel) (assos : List Association) (configs : List Config)
    → length (init channels assos configs).channels ≡ length channels
unfolding init
length-init [] assos configs = refl
length-init (c ∷ cs) assos configs = ap suc (length-init cs assos configs)

-- After `csm_channel_init` with fewer than 256 channels and any sequence of connections and
-- disconnections, two channels in use never have the same id.
pub init-handle_distinct :
    (channels : List Channel) (assos : List Association) (configs : List Config) (es : List Event)
    (i j : ℕ) (c d : Channel)
    → length channels < 256
    → get_elem? (handle es (init channels assos configs)).channels i ≡ some c
    → get_elem? (handle es (init channels assos configs)).channels j ≡ some d
    → c.request.channel_id ≢ invalid
    → i ≢ j
    → c.request.channel_id ≢ d.request.channel_id
init-handle_distinct channels assos configs es i j c d h at_i at_j live apart same =
    let start : Sound (init channels assos configs) = (
      omega (arith, length-init channels assos configs, h),
      init-IdsFrom 0 channels assos configs,
    ) in
    let sound = handle-Sound es (init channels assos configs) start in
    let live' : d.request.channel_id ≢ invalid = λ e. live (same ∙ e) in
    let id_c = id_at 0 i (handle es (init channels assos configs)).channels c sound.1 at_i live in
    let id_d = id_at 0 j (handle es (init channels assos configs)).channels d sound.1 at_j live' in
    apart (omega (arith, id_c, id_d, same))
