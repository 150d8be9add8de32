-- ===== src/Channel/Execute.antt =====
-- src/csm_channel.c: a packet that arrives on a channel, `csm_channel_execute`.
use cosemlib.Base.{
  ℕ, ◌+◌, Bool, ◌&&◌, ◌||◌, List, [], ◌∷◌, Option, none, some, if◌then◌else◌, ◌==◌, get_elem?, set,
  ret, fault, M, pure,
}
use cosemlib.Ber.{Ber}
use cosemlib.Array
use cosemlib.Array.{Array}
use cosemlib.Association.{Association, Config, Hal, Llc, Session, StateCf, aarq, aare, rlrq, rlre}
use cosemlib.Association.Server.{server_execute}
use cosemlib.Services.{Request, Exchange}
use cosemlib.Services.Server.{App, server_services_execute, hls_execute}
use cosemlib.Channel.{Channel, Stack}

-- The static variables, the packet, the random bytes drawn, and the uninitialised local variable of the
-- codecs.
pub record Net : Type 0 where
  pub stack : Stack
  pub packet : Array
  pub drawn : ℕ
  pub ber : Ber

abbrev same_llc : Llc → Llc → Bool
same_llc a b = a.ssap == b.ssap && a.dsap == b.dsap

-- The loop over the configurations, from the index `i` on: the first one with both addresses.
unfoldable pub find_asso : Llc → ℕ → List Config → Option (ℕ × Config)
find_asso llc i [] = none
find_asso llc i (c ∷ cs) =
    let rest = find_asso llc (i + 1) cs in if same_llc llc c.llc then some (i, c) else rest

abbrev pub is_asso_tag : ℕ → Bool
is_asso_tag tag = tag == aare || (tag == aarq || (tag == rlre || tag == rlrq))

-- The calls that `csm_channel_execute` makes for the channel `channel` and the association `i`.
module _ (hal : Hal) (app : App) (channel i : ℕ) where
  -- `csm_asso_server_execute(&asso_list[i], packet)`
  unfoldable pub run_asso : Association → M Net ℕ
  run_asso a n =
      let s : Session = record { asso = a; ber = n.ber; array = n.packet; drawn = n.drawn } in
      elim (server_execute hal s) [
        | ret r s' ↦ ret r (record {
          stack = record n.stack { assos = set n.stack.assos i s'.asso };
          packet = s'.array;
          drawn = s'.drawn;
          ber = s'.ber;
        })
        | fault ↦ fault
      ]

  -- A service, on the request of the channel.
  unfoldable pub run_services : M (Exchange Request) ℕ → Channel → M Net ℕ
  run_services service c n = elim (service (record { message = c.request; array = n.packet })) [
    | ret r t ↦ ret r (record n {
      stack = record n.stack {
        channels = set n.stack.channels channel (record c { request = t.message });
      };
      packet = t.array;
    })
    | fault ↦ fault
  ]

  unfoldable pub other_packet : StateCf → Channel → M Net ℕ
  unfolding run_services
  other_packet StateCf.associated c = run_services (server_services_execute app) c
  other_packet StateCf.association_pending c = run_services (hls_execute app) c
  other_packet _ c = pure 0

  -- The packet, by its first byte.
  unfoldable pub dispatch : Association → Channel → M Net ℕ
  unfolding run_asso other_packet
  dispatch a c n = elim (Array.get_byte 0 n.packet) [
    | ret none p ↦ ret 0 (record n { packet = p })
    | ret (some tag) p ↦
        (if is_asso_tag tag then run_asso a else other_packet a.state_cf c)
          (record n { packet = p })
    | fault ↦ fault
  ]

-- The association gets its configuration, and the channel its association.
abbrev pub configured : Config → Association → Association
configured conf a = record a { config = some conf }

abbrev pub linked : ℕ → ℕ → Config → Association → Channel → Net → Net
linked channel i conf a c n = record n {
  stack = record n.stack {
    channels = set n.stack.channels channel (record c { asso = some i });
    assos = set n.stack.assos i (configured conf a);
  };
}

-- `csm_channel_execute`: the number of bytes of the response. The channel is an index of the list, and
-- there is an association for each configuration.
module _ (hal : Hal) (app : App) (channel : ℕ) where
  unfoldable pub on_asso : ℕ → Config → Channel → Option Association → M Net ℕ
  on_asso i conf c none n = fault
  on_asso i conf c (some a) n =
      dispatch hal app channel i (configured conf a) (record c { asso = some i })
        (linked channel i conf a c n)

  unfoldable pub on_config : Channel → Option (ℕ × Config) → M Net ℕ
  unfolding on_asso
  on_config c none n = ret 0 n
  on_config c (some (i, conf)) n = on_asso i conf c (get_elem? n.stack.assos i) n

  unfoldable pub on_channel : Option Channel → M Net ℕ
  unfolding on_config
  on_channel none n = fault
  on_channel (some c) n = on_config c (find_asso c.request.llc 0 n.stack.configs) n

  unfoldable pub execute : M Net ℕ
  unfolding on_channel
  execute n = if n.stack.is_set then on_channel (get_elem? n.stack.channels channel) n else ret 0 n
