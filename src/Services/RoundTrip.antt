-- ===== src/Services/RoundTrip.antt =====
-- A request that the client encodes, as the server decodes it.
use cosemlib.Base.{ℕ, ◌<◌, ◌≡◌, Bool, List, ◌∷◌, ◌++◌, length, M}
use mathlib.Core.Path.{subst}
use cosemlib.Base.Words.{u16_mod, put_be16}
use cosemlib.Array.Append.{Emits, Emits-&&&, write_u8-Emits, write_u16-Emits, write_buff-Emits}
use cosemlib.Array.Consume.{read_u8-Reads}
use cosemlib.Services.{Request, Exchange, take_buff, svc_request_normal}
use cosemlib.Services.Coding.{
  selective_access, data_presence, decode_request, request_tag, encode_option, encode_data,
  request_encoder,
}
use cosemlib.Services.Takes.{
  Takes, Takes-&&&, Takes-&&>, take_u8-Takes, take_u16-Takes, take_buff-Takes,
}

-- The bytes of a normal request after its tag: the name of the object, then `rest`.
abbrev pub request_bytes : Request → List ℕ → List ℕ
request_bytes r rest =
    let name = r.db_request.logical_name in
    1 ∷ r.sender_invoke_id ∷ (put_be16 name.class_id ++ (name.obis ++ (name.id ∷ rest)))

-- A request `q` with the invoke id and the name of the object of `r`.
abbrev pub named_as : Request → Request → Request
named_as r q =
    let name = r.db_request.logical_name in
    record q {
      sender_invoke_id = r.sender_invoke_id;
      db_request = record q.db_request {
        logical_name = record q.db_request.logical_name {
          class_id = name.class_id;
          obis = name.obis;
          id = name.id;
        };
      };
    }

pub encode_normal-Emits :
    (r : Request) {xs ys : List ℕ}
    → r.request_type ≡ svc_request_normal
    → Emits (encode_option r.db_request) xs
    → Emits (encode_data r.db_request) ys
    → Emits (request_encoder r) (request_tag r.db_request.service ∷ request_bytes r (xs ++ ys))
unfolding request_encoder
encode_normal-Emits r {xs} {ys} e p q =
    let name = r.db_request.logical_name in
    rw e (
      Emits-&&& (write_u8-Emits _) (
        Emits-&&& (write_u8-Emits 1) (
          Emits-&&& (write_u8-Emits r.sender_invoke_id) (
            Emits-&&& (write_u16-Emits name.class_id) (
              Emits-&&& (write_buff-Emits name.obis)
                (Emits-&&& (write_u8-Emits name.id) (Emits-&&& p q)))))))

module _ (hal : M (Exchange Request) Bool) where
  take_obis :
      (f : List ℕ → Request → Request) (xs : List ℕ) (q : Request)
      → length xs ≡ 6
      → Takes (take_buff 6 f) xs q (f xs q)
  take_obis f xs q e = subst (λ n. Takes (take_buff n f) xs q (f xs q)) e (take_buff-Takes f xs)

  pub normal_request-Takes :
      (r q : Request) {t u : Request} {xs ys : List ℕ}
      → r.db_request.logical_name.class_id < u16_mod
      → length r.db_request.logical_name.obis ≡ 6
      → Takes (selective_access hal) xs (named_as r q) t
      → Takes data_presence ys t u
      → Takes (decode_request hal) (request_bytes r (xs ++ ys)) q u
  unfolding decode_request
  normal_request-Takes r q small six p d =
      let name = r.db_request.logical_name in
      Takes-&&> _ (read_u8-Reads 1) (
        Takes-&&& (take_u8-Takes _ r.sender_invoke_id) (
          Takes-&&& (take_u16-Takes _ name.class_id small) (
            Takes-&&& (take_obis _ name.obis _ six)
              (Takes-&&& (take_u8-Takes _ name.id) (Takes-&&& p d)))))
