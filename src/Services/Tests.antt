-- ===== src/Services/Tests.antt =====
-- The services at concrete inputs: a request for the clock's time, and its responses.
use cosemlib.Base.{
  ℕ, ◌≡◌, ◌≤◌, refl, true, false, List, [], ◌∷◌, ◌++◌, some, arith, replicate, ret, pure, M, Bool,
  Returns, inl,
}
use cosemlib.Base.Lists.{slice}
use cosemlib.Array.{Array, written}
use cosemlib.Array.Append.{append, contents}
use cosemlib.Array.Consume.{skip}
use cosemlib.Services.{
  Service, svc_get, svc_set, svc_action, OptData, Request, Exchange, ok, err_object_not_found,
}
use cosemlib.Services.Coding.{set_sel_access, set_additional, request_tag}
use cosemlib.Services.RoundTrip.{request_bytes, named_as}
use cosemlib.Services.Delivery.{deliver, deliver_get, deliver_set, deliver_action}
use cosemlib.Services.Server.{
  App, Database, Transfer, finish_answer, access_result, response_encoder, server_services_execute,
  services_init,
}
use cosemlib.Services.Client.{Response, client_decode, is_valid_action_result}
use cosemlib.Services.Replies.{started, exchanged}
use cosemlib.Services.Decoded.{decode-set_response, decode-action_access_result}
use cosemlib.Services.Layout.{finish_answer-contents, action_header}
use cosemlib.Services.Answers.{Lawful}
use cosemlib.Services.Stable.{Same, Same-refl}
use cosemlib.Services.Liveness.{server_services_execute-answers}
use cosemlib.Services.Wire.{other}
use cosemlib.Services.Serving.{respond, server_services_execute-Wire}

abbrev array_of : ℕ → List ℕ → Array
array_of n bs = record {
  rd_index = 0;
  wr_index = n;
  offset = 0;
  size = 24;
  buff = bs ++ replicate 12 0;
}

abbrev empty : Array
empty = array_of 0 (replicate 24 0)

abbrev no_data : OptData
no_data = record { enable = 0; data_array = empty; is_null = true }

abbrev some_data : OptData
some_data = record {
  enable = 1;
  data_array = array_of 2 (17 ∷ 5 ∷ replicate 22 0);
  is_null = false;
}

abbrev request : Service → OptData → Request
request service additional = record {
  db_request = record {
    block_number = 0;
    service = service;
    additional_data = additional;
    sel_access = no_data;
    logical_name = record {
      class_id = 8;
      obis = 0 ∷ 0 ∷ 1 ∷ 0 ∷ 0 ∷ 255 ∷ [];
      version = 0;
      id = 2;
      data_index = 0;
    };
    db_type = 0;
  };
  sender_invoke_id = 0xC1;
  request_type = 0;
  llc = record { ssap = 16; dsap = 1 };
  channel_id = 1;
}

abbrev refuse : M (Exchange Request) Bool
refuse = pure false

abbrev served : Service → Exchange Request
served service = record { message = request service no_data; array = empty }

deliver_get_example :
    deliver refuse (request svc_get no_data) (served svc_get)
    ≡ ret true (record {
      message = set_sel_access 0 (named_as (request svc_get no_data) (request svc_get no_data));
      array = skip 13 (append (192 ∷ request_bytes (request svc_get no_data) (0 ∷ [])) empty);
    })
deliver_get_example =
    deliver_get refuse (request svc_get no_data) (request svc_get no_data) {a = empty} refl refl
      refl refl (ground arith) refl (ground arith) refl (ground arith)

deliver_set_example :
    deliver refuse (request svc_set some_data) (served svc_set)
    ≡ ret true (record {
      message =
          set_additional 17
            (set_sel_access 0 (named_as (request svc_set some_data) (request svc_set no_data)));
      array =
          skip 14
            (append (193 ∷ request_bytes (request svc_set some_data) (0 ∷ 17 ∷ 5 ∷ [])) empty);
    })
unfolding slice written
deliver_set_example =
    deliver_set refuse (request svc_set some_data) (request svc_set no_data) 17 (5 ∷ []) {a = empty}
      refl refl refl refl (ground arith) refl (ground arith) (ground arith) refl (ground arith)

deliver_action_example :
    deliver refuse (request svc_action some_data) (served svc_action)
    ≡ ret true (record {
      message =
          set_additional 1 (named_as (request svc_action some_data) (request svc_action no_data));
      array =
          skip 13
            (append (195 ∷ request_bytes (request svc_action some_data) (1 ∷ 17 ∷ 5 ∷ [])) empty);
    })
unfolding slice written
deliver_action_example =
    deliver_action refuse (request svc_action some_data) (request svc_action no_data) (17 ∷ 5 ∷ [])
      {a = empty} refl refl refl (ground arith) refl (ground arith) (ground arith) refl
      (ground arith)

abbrev response : Response
response = record {
  service = svc_get;
  response_type = 0;
  result = 0;
  access_result = 0;
  action_result = 0;
  state_err = 0;
  service_err = 0;
  invoke_id = 0;
  has_data = false;
  block_number = 0;
  last_block = 0;
}

decode-set_response_example :
    exchanged
      (response_encoder (request svc_set no_data) err_object_not_found 0)
      (record { message = response; array = empty })
    ≡ ret true (record {
      message = record (started svc_set 0xC1 response) {
        access_result = access_result err_object_not_found;
      };
      array = skip 4 (append (197 ∷ 1 ∷ 0xC1 ∷ access_result err_object_not_found ∷ []) empty);
    })
decode-set_response_example =
    decode-set_response (request svc_set no_data) response err_object_not_found 0 {a = empty} refl
      (ground arith) refl (ground arith)

abbrev reply : ℕ → Array
reply choice = array_of 7 (199 ∷ 1 ∷ 7 ∷ 0 ∷ 1 ∷ choice ∷ 11 ∷ replicate 17 0)

decode-action_access_result_example :
    client_decode (record { message = response; array = reply 1 })
    ≡ ret true (record {
      message = record (started svc_action 7 response) { action_result = 0; access_result = 1 };
      array = skip 6 (reply 1);
    })
unfolding is_valid_action_result
decode-action_access_result_example =
    decode-action_access_result response 7 0 11 {a = reply 1} refl (ground arith) (record {
      rest = replicate 29 0;
      next = refl;
      written_up = ground arith;
      inside = ground arith;
    })

-- The database has written three bytes behind the place of the header.
abbrev transfer : Transfer
transfer = record {
  message = request svc_action no_data;
  input = array_of 13 (replicate 6 0 ++ (9 ∷ 1 ∷ 66 ∷ replicate 15 0));
  output = record { rd_index = 0; wr_index = 3; offset = 6; size = 24 };
}

finish_answer-contents_example :
    (s : Exchange Request) × (finish_answer ok transfer ≡ ret ok s)
    × (contents s.array
        ≡ action_header (request svc_action no_data) ok ++ slice 6 3 transfer.input.buff)
finish_answer-contents_example =
    finish_answer-contents ok transfer refl (ground arith) (ground arith)

-- A database that finds nothing.
abbrev nothing_found : Database
nothing_found = record { in_place = pure err_object_not_found; apart = pure err_object_not_found }

abbrev app : App
app = record { decode_selective_access = refuse; database = some nothing_found }

app-Lawful : Lawful app nothing_found
app-Lawful = record {
  selects = record { run = λ s h. Same-refl h };
  in_place = λ s h. (Same-refl h, omega arith);
  apart = λ t h w. (Same-refl h, w);
}

-- A GET request that ends after its tag.
abbrev cut_off : Exchange Request
cut_off = record { message = request svc_get no_data; array = array_of 1 (192 ∷ replicate 23 0) }

server_services_execute-answers_example :
    Returns
      (server_services_execute (services_init (some nothing_found) app) cut_off)
      (λ n t. Same cut_off.array t.array × (n ≡ t.array.wr_index) × (3 ≤ n))
server_services_execute-answers_example =
    server_services_execute-answers app-Lawful cut_off 192 (ground arith)
      (record {
        rest = replicate 35 0;
        next = refl;
        written_up = ground arith;
        inside = ground arith;
      })
      (inl refl)

-- An ACTION of the type 2, after a GET for the clock.
abbrev unsupported : Array
unsupported = array_of 3 (195 ∷ 2 ∷ 9 ∷ replicate 21 0)

server_services_execute-Wire_example :
    server_services_execute
      (services_init (some nothing_found) app)
      (record { message = request svc_get no_data; array = unsupported })
    ≡ respond svc_action nothing_found (record {
      message = record (request svc_action no_data) { sender_invoke_id = 9 };
      array = skip 3 unsupported;
    })
unfolding request_tag
server_services_execute-Wire_example =
    server_services_execute-Wire app nothing_found svc_action 9 (other 2) (request svc_get no_data)
      {a = unsupported} tt (ground arith, refl) (ground arith)
      (record {
        rest = replicate 33 0;
        next = refl;
        written_up = ground arith;
        inside = ground arith;
      })
