-- ===== src/Services/Replies.antt =====
-- The responses of the server, as the client decodes them.
use cosemlib.Base.{
  ℕ, ◌+◌, ◌≡◌, refl, ap, ◌∙◌, Bool, true, false, List, [], ◌∷◌, ◌++◌, arith, length, ret, M, pure,
  if◌then◌else◌, length-append, Bool-cases, inl, inr, ◌>>=◌, ◌>>◌,
}
use cosemlib.Array.{Array}
use cosemlib.Array.Bounds.{IsValid}
use cosemlib.Array.Append.{
  append, append-append, append-IsValid, Room, Emits, Emits-&&&, write_u8-Emits,
}
use cosemlib.Array.Consume.{skip, skip-skip, append-Ahead, read_u8_next, read_u8-Reads}
use cosemlib.Services.{
  Service, svc_action, svc_unkown, is_action, Request, Exchange, DbCode, is_ok, on_array,
}
use cosemlib.Services.Server.{access_result, response_encoder, response_tag, return_parameters}
use cosemlib.Services.Client.{
  Response, result_decoder, return_result, response_decoder, response_body,
  service_response_decoder, client_decode, client_services, run_service, set_service,
  is_valid_data_access_result, is_valid_action_result,
}
use cosemlib.Services.Takes.{Takes, Takes-&&&, Takes-&&>, Takes-update, take_u8-Takes}

-- A normal response as the decoder starts it: the service, the type and the invoke id.
abbrev pub started : Service → ℕ → Response → Response
started service invoke r = record r {
  service = service;
  response_type = 0;
  invoke_id = invoke;
  has_data = false;
  access_result = 255;
}

abbrev pub begun : ℕ → Response → Response
begun invoke r = record r { service = svc_action; response_type = 0; invoke_id = invoke }

abbrev pub resulting : ℕ → ℕ → Response → Response
resulting invoke b r = record (started svc_action invoke r) { action_result = b }

-- A result of GET and SET.
pub data_result-Takes :
    (r : Response) (service : Service) (b : ℕ)
    → r.service ≡ service
    → is_action service ≡ false
    → is_valid_data_access_result b ≡ true
    → Takes result_decoder (b ∷ []) r (record r { has_data = false; access_result = b })
unfolding result_decoder
data_result-Takes r service b e f h = record {
  run = λ a v ahead. rw (on_array, (read_u8-Reads b).run a v ahead, e, f, h) refl;
}

pub access_result-valid :
    (code : DbCode)
    → (is_valid_data_access_result (access_result code) ≡ true)
      × (is_valid_action_result (access_result code) ≡ true)
unfolding access_result is_valid_data_access_result is_valid_action_result
access_result-valid code = elim (Bool-cases (is_ok code)) [
  | inl e ↦ rw e (refl, refl)
  | inr e ↦ rw e (refl, refl)
]

-- A result of ACTION with no more than the flag 0 behind it, and with data behind it.
pub action_result-Takes :
    (r : Response) (b : ℕ)
    → is_valid_action_result b ≡ true
    → Takes result_decoder
        (b ∷ 0 ∷ [])
        (record r { service = svc_action })
        (record r {
          service = svc_action;
          has_data = false;
          access_result = 255;
          action_result = b;
        })
unfolding result_decoder
action_result-Takes r b h = record {
  run = λ a v ahead.
      let (first, valid, next) = read_u8_next b (0 ∷ []) v ahead in
      let (second, valid', last) = read_u8_next 0 [] valid next in
      rw (on_array, first, h, second)
        (ap (ret true) (
          ap
            (λ c. record {
              message = record r {
                service = svc_action;
                has_data = false;
                access_result = 255;
                action_result = b;
              };
              array = c;
            })
            (skip-skip 1 1 2 a refl)));
}

-- The flag 1 and the choice `c`, with what the client makes of it.
pub return_result-Takes :
    (r : Response) (b c : ℕ) (t : Response)
    → is_valid_action_result b ≡ true
    → Takes return_result
        (c ∷ [])
        (record r {
          service = svc_action;
          has_data = false;
          access_result = 255;
          action_result = b;
        })
        t
    → Takes result_decoder (b ∷ 1 ∷ c ∷ []) (record r { service = svc_action }) t
unfolding result_decoder
return_result-Takes r b c t h p = record {
  run = λ a v ahead.
      let (first, valid, next) = read_u8_next b (1 ∷ c ∷ []) v ahead in
      let (second, valid', last) = read_u8_next 1 (c ∷ []) valid next in
      rw (on_array, first, h, second)
        (p.run (skip 1 (skip 1 a)) valid' last
          ∙ ap (λ d. ret true (record { message = t; array = d }))
              (ap (skip 1) (skip-skip 1 1 2 a refl) ∙ skip-skip 2 1 3 a refl));
}

-- A normal response after its tag: the type 1, the invoke id, and the results.
pub normal_response-Takes :
    (service : Service) (invoke : ℕ) (xs : List ℕ) (r : Response) {t : Response}
    → Takes result_decoder xs
        (record r { service = service; response_type = 0; invoke_id = invoke })
        t
    → Takes (service_response_decoder service) (1 ∷ invoke ∷ xs) r t
unfolding service_response_decoder set_service response_decoder response_body
normal_response-Takes service invoke xs r p =
    Takes-update _ _
      (Takes-&&> _ (read_u8-Reads 1) (Takes-&&& (take_u8-Takes _ invoke) (Takes-update _ _ p)))

Emits->> :
    {m k : M Array Bool} {xs ys : List ℕ} → Emits m xs → Emits k ys → Emits (m >> k) (xs ++ ys)
Emits->> {m} {k} {xs} {ys} p q = record {
  run = λ a v h.
      let room : Room a (length xs + length ys) = omega (arith, length-append xs ys) in
      rw (p.run a v (omega arith)) (
        q.run (append xs a) (append-IsValid xs v (omega arith)) (omega arith)
        ∙ ap (ret true) (append-append xs ys a));
}

pub response_encoder-Emits :
    (r : Request) (code : DbCode) (n : ℕ) {ys : List ℕ}
    → Emits (if is_action r.db_request.service then return_parameters n else pure true) ys
    → Emits
        (response_encoder r code n)
        (response_tag r.db_request.service ∷ 1 ∷ r.sender_invoke_id ∷ access_result code ∷ ys)
unfolding response_encoder
response_encoder-Emits r code n p =
    Emits->>
      (Emits-&&& (write_u8-Emits _)
        (Emits-&&& (write_u8-Emits 1) (write_u8-Emits r.sender_invoke_id)))
      (Emits-&&& (write_u8-Emits _) p)

-- The client finds the service by the tag.
pub decode-Takes :
    (tag : ℕ) (xs : List ℕ) {r t : Response}
    → Takes (run_service client_services tag) xs (record r { service = svc_unkown }) t
    → Takes client_decode (tag ∷ xs) r t
unfolding client_decode set_service
decode-Takes tag xs p = Takes-update _ _ (Takes-&&> _ (read_u8-Reads tag) p)

abbrev pub exchanged : M Array Bool → M (Exchange Response) Bool
exchanged m = on_array m >>= λ _. client_decode

pub exchanged_lem :
    (m : M Array Bool) {xs : List ℕ} {r t : Response} {a : Array}
    → Emits m xs
    → Takes client_decode xs r t
    → IsValid a
    → a.rd_index ≡ a.wr_index
    → Room a (length xs)
    → exchanged m (record { message = r; array = a })
      ≡ ret true (record { message = t; array = skip (length xs) (append xs a) })
exchanged_lem m {xs} {a = a} p q v e room =
    rw (p.run a v room, on_array)
      (q.run (append xs a) (append-IsValid xs v room) (append-Ahead xs v e room))
