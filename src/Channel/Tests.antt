-- ===== src/Channel/Tests.antt =====
-- Channels at concrete inputs: three channels over one association.
use cosemlib.Base.{
  ℕ, ◌≡◌, ◌≢◌, refl, false, true, List, [], ◌∷◌, none, some, arith, ret, pure, get_elem?, set,
  replicate,
}
use cosemlib.Base.Lists.{slice}
use cosemlib.Array.{Array, get_byte, peek}
use cosemlib.Ber.{Ber}
use cosemlib.Services.Server.{App, hls_execute, server_services_execute}
use cosemlib.Association.States.{Step}
use cosemlib.Channel.Execute.{Net, find_asso, dispatch, other_packet, configured, linked, execute}
use cosemlib.Channel.Closed.{execute-Step, receive, receive-pending}
use cosemlib.Association.{Config, Hal, Association, Challenge, StateCf, Referencing, AuthLevel}
use cosemlib.Association.Server
use cosemlib.Services.{OptData, Request, svc_get}
use cosemlib.Channel.{Channel, Stack, init, new, new_from, disconnect}
use cosemlib.Channel.Ids.{connect, hang_up, Event, handle, init-handle_distinct}

abbrev pub challenge : Challenge
challenge = record { value = replicate 64 0; size = 0 }

abbrev pub association : Association
association = record {
  state_cf = StateCf.associated;
  ref = Referencing.ln_ref;
  auth_level = AuthLevel.lowest;
  client_app_title = replicate 8 0;
  server_app_title = replicate 8 0;
  handshake = record {
    ctos = challenge;
    stoc = challenge;
    proposed_conformance = 0;
    client_max_receive_pdu_size = 0;
    server_max_receive_pdu_size = 0;
    accepted = false;
    result = 0;
  };
  config = none;
}

abbrev no_data : OptData
no_data = record {
  enable = 0;
  data_array = record { rd_index = 0; wr_index = 0; offset = 0; size = 0; buff = [] };
  is_null = true;
}

abbrev request : ℕ → Request
request id = record {
  db_request = record {
    block_number = 0;
    service = svc_get;
    additional_data = no_data;
    sel_access = no_data;
    logical_name = record {
      class_id = 8;
      obis = replicate 6 0;
      version = 0;
      id = 2;
      data_index = 0;
    };
    db_type = 0;
  };
  sender_invoke_id = 0;
  request_type = 0;
  llc = record { ssap = 16; dsap = 1 };
  channel_id = id;
}

abbrev used : ℕ → Channel
used id = record { request = request id; asso = some 0 }

abbrev stack : Stack
stack = record {
  channels = used 1 ∷ used 0 ∷ used 3 ∷ [];
  assos = association ∷ [];
  configs = [];
  is_set = true;
}

abbrev events : List Event
events = connect ∷ connect ∷ hang_up 0 ∷ connect ∷ []

abbrev live : ℕ → Channel
live id = record { request = request id; asso = none }

-- The channels 0 and 1 are in use after the events.
after_events : handle events (init stack.channels stack.assos []) ≡ record {
  channels = live 1 ∷ live 2 ∷ live 0 ∷ [];
  assos = Server.init association ∷ [];
  configs = [];
  is_set = true;
}
unfolding handle init new new_from disconnect
after_events = refl

init-handle_distinct_example : (live 2).request.channel_id ≢ (live 1).request.channel_id
unfolding handle init new new_from disconnect
init-handle_distinct_example =
    init-handle_distinct stack.channels stack.assos [] events 1 0 (live 2) (live 1) (ground arith)
      refl refl (ground arith) (ground arith)

abbrev hal : Hal
hal = record {
  random_u8 = λ _ _ _. 8;
  lls_password = λ _ _. 49 ∷ 50 ∷ 51 ∷ [];
  system_title = replicate 8 1;
  junk = 170;
}

-- An application without a database.
abbrev app : App
app = record { decode_selective_access = pure false; database = none }

abbrev config : Config
config = record {
  llc = record { ssap = 16; dsap = 1 };
  conformance = 0x181F;
  is_auto_connected = 0;
}

abbrev waiting : StateCf → Association
waiting st = record association { state_cf = st }

abbrev ber : Ber
ber = record {
  tag = record { tag = 0; is_primitive = false; cls = 0; ext = 0; id = 0; nbytes = 0 };
  length = record { length = 0; nbytes = 0 };
}

-- A GET request in the packet.
abbrev packet : Array
packet = record {
  rd_index = 0;
  wr_index = 2;
  offset = 0;
  size = 8;
  buff = 192 ∷ 1 ∷ 0 ∷ 0 ∷ 0 ∷ 0 ∷ 0 ∷ 0 ∷ [];
}

abbrev net : StateCf → Net
net st = record {
  stack = record {
    channels = used 1 ∷ [];
    assos = waiting st ∷ [];
    configs = config ∷ [];
    is_set = true;
  };
  packet = packet;
  drawn = 0;
  ber = ber;
}

unlinked :
    execute hal app 0 (net StateCf.idle)
    ≡ ret 0 (linked 0 0 config (waiting StateCf.idle) (used 1) (net StateCf.idle))
unfolding execute get_byte peek find_asso slice dispatch other_packet
unlinked = refl

execute-Step_example :
    (b : Association) × (get_elem?
        (set (waiting StateCf.idle ∷ []) 0 (configured config (waiting StateCf.idle)))
        0
      ≡ some b)
    × Step StateCf.idle b.state_cf
execute-Step_example =
    execute-Step hal app 0 (net StateCf.idle) 0 {a = waiting StateCf.idle} unlinked refl

-- The application has no database, so the packet of the waiting client has no effect.
unanswered :
    receive hal app ((0, packet) ∷ []) (net StateCf.association_pending)
    ≡ ret tt (
        linked 0 0 config
          (waiting StateCf.association_pending)
          (used 1)
          (net StateCf.association_pending))
unfolding receive execute get_byte peek find_asso slice dispatch other_packet hls_execute
    server_services_execute
unanswered = refl

receive-pending_example :
    (b : Association) × (get_elem?
        (set
          (waiting StateCf.association_pending ∷ [])
          0
          (configured config (waiting StateCf.association_pending)))
        0
      ≡ some b)
    × (b.state_cf ≡ StateCf.association_pending)
receive-pending_example =
    receive-pending hal app ((0, packet) ∷ []) (net StateCf.association_pending) 0
      {a = waiting StateCf.association_pending} unanswered refl refl
