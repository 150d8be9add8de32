-- ===== src/Security/Tests.antt =====
-- Runs of src/csm_security.c: packets with one byte of information.
use cosemlib.Base.{ℕ, ◌≡◌, ◌↔◌, refl, true, List, [], ◌∷◌, ◌++◌, take, arith, Returns, replicate}
use cosemlib.Base.Words.{put_be32}
use cosemlib.Array.{Array, unread}
use cosemlib.Services.{Request, OptData, svc_get}
use cosemlib.Security.{Gcm, sec_ok, auth_decrypt}
use cosemlib.Security.Tag.{auth_decrypt_lem, tag_of}
use cosemlib.Security.Untagged.{auth_decrypt_untagged}
use cosemlib.Security.Cipher.{key}

-- A cipher whose tag is the initialisation vector.
abbrev pub vector_as_tag : Gcm (List ℕ)
vector_as_tag = record {
  get_key = λ sap. 1 ∷ 2 ∷ 3 ∷ 4 ∷ 5 ∷ 6 ∷ 7 ∷ 8 ∷ 9 ∷ 10 ∷ 11 ∷ 12 ∷ 13 ∷ 14 ∷ 15 ∷ 16 ∷ [];
  gcm_init = λ channel sap decrypts iv aad context. iv;
  gcm_update = λ channel bytes context. (bytes, context);
  gcm_finish = λ channel context. (context, context);
}

abbrev pub title : List ℕ
title = 77 ∷ 77 ∷ 77 ∷ 0 ∷ 0 ∷ 0 ∷ 0 ∷ 1 ∷ []

abbrev pub no_data : OptData
no_data = record {
  enable = 0;
  data_array = record { rd_index = 0; wr_index = 0; offset = 0; size = 0; buff = [] };
  is_null = true;
}

abbrev pub request : Request
request = record {
  db_request = record {
    block_number = 0;
    service = svc_get;
    additional_data = no_data;
    sel_access = no_data;
    logical_name = record { class_id = 8; obis = []; version = 0; id = 2; data_index = 0 };
    db_type = 0;
  };
  sender_invoke_id = 0xC1;
  request_type = 0;
  llc = record { ssap = 16; dsap = 1 };
  channel_id = 1;
}

abbrev pub tag : List ℕ
tag = 77 ∷ 77 ∷ 77 ∷ 0 ∷ 0 ∷ 0 ∷ 0 ∷ 1 ∷ 0 ∷ 0 ∷ 0 ∷ 7 ∷ []

abbrev packet : Array
packet = record {
  rd_index = 0;
  wr_index = 18;
  offset = 12;
  size = 31;
  buff = 0 ∷ 0 ∷ 0 ∷ 0 ∷ 0 ∷ 0 ∷ 0 ∷ 0 ∷ 0 ∷ 0 ∷ 0 ∷ 0 ∷ 16 ∷ 0 ∷ 0 ∷ 0 ∷ 7 ∷ 5 ∷ (tag ++ (0 ∷ []));
}

auth_decrypt_lem_example :
    Returns
      (auth_decrypt vector_as_tag request title 0 0 (record { array = packet; context = [] }))
      (λ r s. (r ≡ sec_ok) ↔ (
        take 12 (
          tag_of vector_as_tag request
            (take 8 title ++ put_be32 7)
            (16 ∷ key vector_as_tag request ++ (5 ∷ []))
            [])
        ≡ tag))
unfolding put_be32 unread
auth_decrypt_lem_example =
    auth_decrypt_lem vector_as_tag request title 16 7 0 0 (5 ∷ []) tag packet [] (ground arith)
      (record { rest = 0 ∷ []; next = refl; written_up = omega arith; inside = omega arith }) refl
      refl (omega arith) refl refl refl (omega arith)

-- A packet that is ciphered and authenticated, with a tag that is no tag of the cipher.
abbrev forged : Array
forged = record packet {
  buff = 0 ∷ 0 ∷ 0 ∷ 0 ∷ 0 ∷ 0 ∷ 0 ∷ 0 ∷ 0 ∷ 0 ∷ 0 ∷ 0 ∷ 48 ∷ 0 ∷ 0 ∷ 0 ∷ 7 ∷ 5 ∷ replicate 13 0;
}

auth_decrypt_untagged_example :
    Returns
      (auth_decrypt vector_as_tag request title 0 0 (record { array = forged; context = [] }))
      (λ r s. r ≡ sec_ok)
unfolding put_be32 unread
auth_decrypt_untagged_example =
    auth_decrypt_untagged vector_as_tag request title 48 7 0 0 (5 ∷ replicate 12 0) forged []
      (ground arith)
      (record { rest = 0 ∷ []; next = refl; written_up = omega arith; inside = omega arith }) refl
      (λ _. omega arith) (omega arith) refl refl (omega arith)
