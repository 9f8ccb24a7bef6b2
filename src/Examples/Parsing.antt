-- ===== src/Examples/Parsing.antt =====
-- Raw messages that are parsed, rows that are read back, and the segments of keys.
use agent_layer.Prelude.{
  String, false, some, none, eq_iff, ◌==◌, ◌≡◌, ◌≢◌, [], ◌∷◌, refl, arith, zero, suc, if◌then◌else◌,
  ℕ,
}
use agent_layer.Prelude.Exec.{Result, ok, err, failure}
use agent_layer.Prelude.Dict
use agent_layer.Prelude.Dict.{Dict}
use agent_layer.Domain.{Bytes, WebhookDelivery, zero_delivery, zero_time}
use agent_layer.Core.{ParsedMessage}
use agent_layer.Text
use agent_layer.Text.{trim_space, to_lower, has_prefix}
use agent_layer.Text.Fields as Cut
use agent_layer.Api.{Response}
use agent_layer.Outbound.Assembler.{reply_subject}
use agent_layer.Parser.Subject
use agent_layer.Parser.Subject.{
  stripped, IsBare, Strips, normalize_subject, normalize_subject-Strips,
}
use agent_layer.Parser.Body
use agent_layer.Parser.Body.{Body, Parts, Mime, populate}
use agent_layer.Parser.Leaves.{leaves, collect}
use agent_layer.Parser.Collects.{populate-Collects}
use agent_layer.Parser.Message.{Mail, MailMessage, parse_raw}
use agent_layer.Parser.Outcome.{answers-normalized}
use agent_layer.Rows.Delivery.{HeaderJson, webhook_delivery_to_model}
use agent_layer.Rows.Kept.{IsJson, ReadsBack, webhook_delivery-ReadsBack}
use agent_layer.Process.Readiness.{ReadinessChecker, check, readiness_handler}
use agent_layer.Process.Checked.{all_healthy, readiness-IsFair}
use agent_layer.Smtp.Identifiers.{sanitize_path_segment}
use agent_layer.Smtp.Segments.{IsClean, sanitize_path_segment-IsClean}
use agent_layer.Examples.Scene.{unicode, hello}

normalize_subject-Strips_example :
    (t : String) × Strips unicode (trim_space unicode "Re: FWD: Hello") t
    × IsBare unicode t
    × (normalize_subject unicode "Re: FWD: Hello" ≡ to_lower unicode t)
normalize_subject-Strips_example = normalize_subject-Strips unicode "Re: FWD: Hello"

abbrev mime : Mime
mime = record {
  media_type = λ text.
      if text == "text/plain"
      then some ("text/plain", "")
      else if text == "multipart/mixed"
      then some ("multipart/mixed", "b")
      else none;
  base64 = λ c. ok (98 ∷ []);
  quoted_printable = λ c. ok [];
  text = λ bytes. "text";
}

abbrev plain : Body
plain = Body.body (record { bytes = 104 ∷ []; failed = none }) (λ boundary. Parts.end none)

abbrev mixed : Body
mixed =
    Body.body (record { bytes = []; failed = none })
      (λ boundary.
        Parts.part
          (record {
            content_type = "text/plain";
            disposition = "attachment; filename=a";
            transfer_encoding = "base64";
            content_id = "";
            file_name = "a";
          })
          plain
          (Parts.part
            (record {
              content_type = "text/plain";
              disposition = "";
              transfer_encoding = "";
              content_id = "";
              file_name = "";
            })
            plain (Parts.end none)))

populate-Collects_example :
    populate unicode mime hello "multipart/mixed" "" mixed
    ≡ collect mime hello (leaves unicode mime "multipart/mixed" "" mixed)
populate-Collects_example = populate-Collects unicode mime hello "multipart/mixed" "" mixed

abbrev mail_of : String → MailMessage
mail_of subject = record {
  header = λ name. if name == "Subject" then subject else "";
  raw_headers = [];
  body = plain;
}

abbrev by_first : Bytes → String
by_first [] = "Hello"
by_first (b ∷ bytes) = "Re: Hello"

abbrev mail : Mail
mail = record {
  read_message = λ raw. ok (mail_of (by_first raw));
  parse_address_list = λ text. none;
  decode_words = λ text. some text;
}

abbrev parsed_as : String → ParsedMessage
parsed_as subject = record {
  message_id_header = "";
  in_reply_to = "";
  references = [];
  subject = subject;
  subject_normalized = "hello";
  text_body = "text";
  html_body = "";
  from = record { email = ""; display_name = "" };
  reply_to = [];
  to = [];
  cc = [];
  attachments = [];
  raw_headers = [];
}

hello_lem : parse_raw unicode mime mail [] ≡ ok (parsed_as "Hello")
unfolding parse_raw populate Body.kind Cut.fields trim_space normalize_subject
    Subject.normalize_from stripped has_prefix to_lower
hello_lem = refl

answer_lem : parse_raw unicode mime mail (1 ∷ []) ≡ ok (parsed_as "Re: Hello")
unfolding parse_raw populate Body.kind Cut.fields trim_space normalize_subject
    Subject.normalize_from stripped has_prefix to_lower Text.size Text.drop
answer_lem = refl

subject_lem : "Re: Hello" ≡ reply_subject unicode "Hello"
unfolding reply_subject has_prefix to_lower trim_space
subject_lem = refl

answers-normalized_example :
    (parsed_as "Re: Hello").subject_normalized ≡ (parsed_as "Hello").subject_normalized
answers-normalized_example =
    answers-normalized unicode mime mail [] (1 ∷ []) (parsed_as "Hello") (parsed_as "Re: Hello")
      hello_lem answer_lem subject_lem

-- An encoding of two maps of headers, the empty one and one with a content type.
abbrev header : Dict String
header = ("Content-Type", "application/json") ∷ []

abbrev write_value : String → String → Result Bytes
write_value k v =
    if k == "Content-Type"
    then (if v == "application/json" then ok (1 ∷ []) else err (failure "unknown"))
    else err (failure "unknown")

abbrev write : Dict String → Result Bytes
write [] = ok (0 ∷ [])
write ((k, v) ∷ []) = write_value k v
write (a ∷ b ∷ rest) = err (failure "unknown")

abbrev read : Bytes → Result (Dict String)
read [] = err (failure "empty")
read (zero ∷ bytes) = ok []
read (suc n ∷ bytes) = ok header

abbrev json : HeaderJson
json = record { marshal = write; unmarshal = read }

write_value-written :
    (k v : String) (b : Bytes)
    → write_value k v ≡ ok b
    → (k ≡ "Content-Type") × (v ≡ "application/json") × (b ≡ 1 ∷ [])
write_value-written k v b p = (
  ground (arith, eq_iff k "Content-Type"),
  ground (arith, eq_iff k "Content-Type", eq_iff v "application/json"),
  ground (arith, eq_iff k "Content-Type", eq_iff v "application/json"),
)

json-filled : (h : Dict String) (b : Bytes) → write h ≡ ok b → b ≢ []
json-filled [] b p = cc
json-filled ((k, v) ∷ []) b p = let (_, _, e) = write_value-written k v b p in cc
json-filled (a ∷ b ∷ rest) bytes p = cc

json-read :
    (h : Dict String) (b : Bytes)
    → write h ≡ ok b
    → (h' : Dict String) × (read b ≡ ok h') × ((k : String) → Dict.get h' k ≡ Dict.get h k)
json-read [] b p = let e : b ≡ 0 ∷ [] = cc in ([], rw e refl, λ k. refl)
json-read ((k, v) ∷ []) b p =
    let (c, d, e) = write_value-written k v b p in (header, rw e refl, λ j. rw (c, d) refl)
json-read (a ∷ b ∷ rest) bytes p = absurd (cc)

json-IsJson : IsJson json
json-IsJson = record { filled = json-filled; read = json-read }

abbrev delivery : WebhookDelivery
delivery = record zero_delivery { id = "d1"; request_headers = header }

webhook_delivery-ReadsBack_example :
    ReadsBack json delivery (webhook_delivery_to_model json delivery)
webhook_delivery-ReadsBack_example = webhook_delivery-ReadsBack json delivery json-IsJson

abbrev checker : ReadinessChecker ℕ
checker = record {
  config = λ n. ([], n);
  db = some (λ n. (none, n));
  email = some (λ n. (
    ok (λ m. (
      (
        record {
          provider_name = "ses";
          healthy = false;
          checked_at = zero_time;
          details = "throttled";
        },
        none,
      ),
      m,
    )),
    n,
  ));
}

readiness-IsFair_example :
    (readiness_handler (λ e. "error") checker 0).0
    ≡ Response.encoded
        (if all_healthy (check (λ e. "error") checker 0).0.checks then 200 else 503)
        (check (λ e. "error") checker 0).0
readiness-IsFair_example = readiness-IsFair (λ e. "error") checker 0

sanitize_path_segment-IsClean_example : IsClean (sanitize_path_segment unicode "-Inbox/../A-")
sanitize_path_segment-IsClean_example = sanitize_path_segment-IsClean unicode "-Inbox/../A-"
