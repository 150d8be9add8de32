-- ===== src/Channel.antt =====
-- src/csm_channel.c: the table of channels, and the associations that they share. A pointer to an
-- association is its index in the list of associations.
pub mod Ids
pub mod Sharing
pub mod Execute
pub mod Closed
pub mod Routing
pub mod Hls
mod Tests
use cosemlib.Base.{
  ℕ, Bool, true, zero, suc, ◌+◌, ◌%◌, List, [], ◌∷◌, Option, none, some, if◌then◌else◌, ◌==◌,
  get_elem?, set,
}
use cosemlib.Base.Words.{u8_mod}
use cosemlib.Association.{Association, Config, StateCf}
use cosemlib.Services.{Request}
use cosemlib.Association.Server

-- `csm_channel`
pub record Channel : Type 0 where
  pub request : Request
  pub asso : Option ℕ

abbrev pub with_id : ℕ → Channel → Channel
with_id id c = record c { request = record c.request { channel_id = id } }

-- The static variables: the channels, the associations and their configurations, and whether the
-- pointers to them have been set.
pub record Stack : Type 0 where
  pub channels : List Channel
  pub assos : List Association
  pub configs : List Config
  pub is_set : Bool

-- `INVALID_CHANNEL_ID`
abbrev pub invalid : ℕ
invalid = 0

abbrev each {ℓ} : {A : Type ℓ} → (A → A) → List A → List A
each f [] = []
each f (x ∷ xs) = f x ∷ each f xs

-- `csm_channel_init`
unfoldable pub init : List Channel → List Association → List Config → Stack
unfolding Server.init
init channels assos configs = record {
  channels = each (λ c. record (with_id invalid c) { asso = none }) channels;
  assos = each Server.init assos;
  configs = configs;
  is_set = true;
}

-- The loop of `csm_channel_new` from the channel `i` on; the id is an 8-bit number.
unfoldable pub new_from : ℕ → List Channel → ℕ × List Channel
new_from i [] = (invalid, [])
new_from i (c ∷ cs) =
    let rest = new_from (i + 1) cs in
    if c.request.channel_id == invalid
    then ((i + 1) % u8_mod, with_id ((i + 1) % u8_mod) c ∷ cs)
    else (rest.0, c ∷ rest.1)

-- `csm_channel_new`
unfoldable pub new : Stack → ℕ × Stack
unfolding new_from
new s = let r = new_from 0 s.channels in (r.0, record s { channels = r.1 })

-- The association at an index becomes idle; every index that `csm_channel_execute` stores is in the list.
abbrev pub idle_at : ℕ → List Association → List Association
idle_at i assos = elim (get_elem? assos i) [
  | none ↦ assos
  | some a ↦ set assos i (record a { state_cf = StateCf.idle })
]

-- `csm_channel_disconnect`, by the index of the channel.
unfoldable pub disconnect : ℕ → Stack → Stack
disconnect channel s = elim (get_elem? s.channels channel) [
  | none ↦ s
  | some c ↦ record s {
    channels = set s.channels channel (with_id invalid c);
    assos = elim c.asso [ none ↦ s.assos | some i ↦ idle_at i s.assos ];
  }
]
