-- ===== src/Services/Decoded.antt =====
-- The responses of the server, as the client decodes them: service by service.
use cosemlib.Base.{ℕ, ◌≡◌, refl, true, List, [], ◌∷◌, ◌++◌, ret}
use mathlib.Core.Path.{subst}
use cosemlib.Array.{Array}
use cosemlib.Array.Bounds.{IsValid}
use cosemlib.Array.Append.{append, Room, Emits, Emits-&&&, Emits-nil, write_u8-Emits}
use cosemlib.Array.Consume.{skip, Ahead, Ahead-left, read_u8-Reads}
use cosemlib.Services.{svc_set, svc_action, svc_exception, Request, DbCode, on_array}
use cosemlib.Services.Server.{
  exception_response_encoder, access_result, response_encoder, response_tag, return_parameters,
}
use cosemlib.Services.Client.{
  Response, return_result, exception_decoder, client_decode, client_services, run_service,
  set_service, is_valid_action_result,
}
use cosemlib.Services.Takes.{Takes, Takes-&&&, Takes-update, take_u8-Takes}
use cosemlib.Services.Replies.{
  started, begun, resulting, exchanged, exchanged_lem, decode-Takes, data_result-Takes,
  action_result-Takes, return_result-Takes, normal_response-Takes, response_encoder-Emits,
  access_result-valid,
}

-- The response to a SET request, in an array with nothing unread and with room, is decoded to the
-- service SET, the invoke id of the request, and the result of the database: 0 for success, 250 for any
-- other code.
pub decode-set_response :
    (q : Request) (r : Response) (code : DbCode) (n : ℕ) {a : Array}
    → q.db_request.service ≡ svc_set
    → IsValid a
    → a.rd_index ≡ a.wr_index
    → Room a 4
    → exchanged (response_encoder q code n) (record { message = r; array = a })
      ≡ ret true (record {
        message = record (started svc_set q.sender_invoke_id r) {
          access_result = access_result code;
        };
        array = skip 4 (append (197 ∷ 1 ∷ q.sender_invoke_id ∷ access_result code ∷ []) a);
      })
unfolding response_tag run_service client_services
decode-set_response q r code n {a} sets v e room =
    let emits = response_encoder-Emits q code n {ys = []} (rw sets Emits-nil) in
    exchanged_lem (response_encoder q code n)
      (subst
        (λ s.
          Emits (response_encoder q code n)
            (response_tag s ∷ 1 ∷ q.sender_invoke_id ∷ access_result code ∷ []))
        sets emits)
      (decode-Takes 197 _ (
        normal_response-Takes svc_set q.sender_invoke_id _ _ (
          data_result-Takes _ svc_set (access_result code) refl refl (access_result-valid code).0)))
      v e room

-- The response to an ACTION request without return parameters is decoded to the service ACTION, the
-- invoke id of the request, the result of the database as the result of the action, and no data.
pub decode-action_response :
    (q : Request) (r : Response) (code : DbCode) {a : Array}
    → q.db_request.service ≡ svc_action
    → IsValid a
    → a.rd_index ≡ a.wr_index
    → Room a 5
    → exchanged (response_encoder q code 0) (record { message = r; array = a })
      ≡ ret true (record {
        message = record (started svc_action q.sender_invoke_id r) {
          action_result = access_result code;
        };
        array = skip 5 (append (199 ∷ 1 ∷ q.sender_invoke_id ∷ access_result code ∷ 0 ∷ []) a);
      })
unfolding response_tag return_parameters run_service client_services
decode-action_response q r code {a} acts v e room =
    let emits = response_encoder-Emits q code 0 {ys = 0 ∷ []} (rw acts (write_u8-Emits 0)) in
    exchanged_lem (response_encoder q code 0)
      (subst
        (λ s.
          Emits (response_encoder q code 0)
            (response_tag s ∷ 1 ∷ q.sender_invoke_id ∷ access_result code ∷ 0 ∷ []))
        acts emits)
      (decode-Takes 199 _ (
        normal_response-Takes svc_action q.sender_invoke_id _ _ (
          action_result-Takes (begun q.sender_invoke_id r) (access_result code)
            (access_result-valid code).1)))
      v e room

-- The exception response of the server is decoded to the service EXCEPTION with both of its bytes.
pub decode-exception_response :
    (r : Response) {a : Array}
    → IsValid a
    → a.rd_index ≡ a.wr_index
    → Room a 3
    → exchanged exception_response_encoder (record { message = r; array = a })
      ≡ ret true (record {
        message = record r { service = svc_exception; state_err = 1; service_err = 1 };
        array = skip 3 (append (216 ∷ 1 ∷ 1 ∷ []) a);
      })
unfolding exception_response_encoder run_service client_services exception_decoder set_service
decode-exception_response r v e room =
    exchanged_lem exception_response_encoder
      (Emits-&&& (write_u8-Emits 216) (Emits-&&& (write_u8-Emits 1) (write_u8-Emits 1)))
      (decode-Takes 216 _ (Takes-update _ _ (Takes-&&& (take_u8-Takes _ 1) (take_u8-Takes _ 1)))) v
      e room

-- A normal response to an ACTION request whose return parameters are a Data-Access-Result is accepted
-- with the access result 1 (hardware fault), whatever the Data-Access-Result is, and that byte is left
-- unread: the response is ahead in a valid array, and the result of the action is a valid one.
pub decode-action_access_result :
    (r : Response) (invoke b x : ℕ) {a : Array}
    → is_valid_action_result b ≡ true
    → IsValid a
    → Ahead (199 ∷ 1 ∷ invoke ∷ b ∷ 1 ∷ 1 ∷ x ∷ []) a
    → client_decode (record { message = r; array = a })
      ≡ ret true (record {
        message = record (started svc_action invoke r) { action_result = b; access_result = 1 };
        array = skip 6 a;
      })
unfolding run_service client_services return_result
decode-action_access_result r invoke b x {a} h v ahead =
    let choice : Takes return_result (1 ∷ []) (resulting invoke b r)
        (record (resulting invoke b r) { access_result = 1 }) =
      record { run = λ a v h. rw (on_array, (read_u8-Reads 1).run a v h) refl } in
    (decode-Takes 199 _ (
        normal_response-Takes svc_action invoke _ _
          (return_result-Takes (begun invoke r) b 1 _ h choice))).run
      a v (Ahead-left (199 ∷ 1 ∷ invoke ∷ b ∷ 1 ∷ 1 ∷ []) (x ∷ []) ahead)

-- A normal response to an ACTION request whose return parameters are data is accepted with the mark
-- that it has data and the access result 0, and the array stands at the data.
pub decode-action_data :
    (r : Response) (invoke b : ℕ) (bs : List ℕ) {a : Array}
    → is_valid_action_result b ≡ true
    → IsValid a
    → Ahead ((199 ∷ 1 ∷ invoke ∷ b ∷ 1 ∷ 0 ∷ []) ++ bs) a
    → client_decode (record { message = r; array = a })
      ≡ ret true (record {
        message = record (started svc_action invoke r) {
          action_result = b;
          access_result = 0;
          has_data = true;
        };
        array = skip 6 a;
      })
unfolding run_service client_services return_result
decode-action_data r invoke b bs {a} h v ahead =
    let choice : Takes return_result (0 ∷ []) (resulting invoke b r)
        (record (resulting invoke b r) { access_result = 0; has_data = true }) =
      record { run = λ a v h. rw (on_array, (read_u8-Reads 0).run a v h) refl } in
    (decode-Takes 199 _ (
        normal_response-Takes svc_action invoke _ _
          (return_result-Takes (begun invoke r) b 0 _ h choice))).run
      a v (Ahead-left (199 ∷ 1 ∷ invoke ∷ b ∷ 1 ∷ 0 ∷ []) bs ahead)
