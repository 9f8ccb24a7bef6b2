-- ===== src/Examples/Threads.antt =====
-- A message that is put on a thread by its references, by its subject, or on a new one.
use agent_layer.Prelude.{
  String, ℕ, suc, Option, none, some, [], ◌∷◌, ◌==◌, if◌then◌else◌, ◌≡◌, refl, arith, true,
}
use agent_layer.Prelude.Int.{pos, ◌-ℤ◌}
use agent_layer.Prelude.Exec.{ok}
use agent_layer.Domain.{Thread}
use agent_layer.Core.{ThreadResolutionInput, Ambient}
use agent_layer.Threading.{
  ThreadLookupRepository, Config, resolve, matched, is_dormant, time_sub, match_strategy_references,
  match_strategy_subject_recent, thirty_days, by_in_reply_to, by_references, by_subject,
}
use agent_layer.Threading.Order.{IsOpened, Answers, resolve-first, resolve_creates}
use agent_layer.Threading.Dormancy.{IsLive, resolve-IsLive}
use agent_layer.Examples.Scene.{hello, thread}

-- One thread is known by a Message-ID, and one by its subject.
abbrev by_id : String → Option Thread
by_id header = if header == "<m0@example.com>" then some thread else none

abbrev recent : String → String → String → String → Option Thread
recent o i c n = if n == "hello" then some thread else none

abbrev lookup : ThreadLookupRepository ℕ
lookup = record {
  find_by_message_id = λ h s. (ok (by_id h), s);
  find_most_recent_by_subject = λ o i c n s. (ok (recent o i c n), s);
}

answers : Answers lookup 0 by_id recent
answers = record { id_answer = λ h. refl; recent_answer = λ o i c n. refl }

abbrev ambient : Ambient ℕ
ambient = record { random_hex = λ s. (ok (some "00"), suc s); now = λ s. (ok (pos 0), s) }

abbrev config : Config
config = record { dormant_threshold = thirty_days }

abbrev input : ThreadResolutionInput
input = record {
  organization_id = "org-local";
  agent_id = "agent-local";
  inbox_id = "inbox-local";
  contact_id = "contact-1";
  parsed_message = hello;
  received_at = pos 600;
}

abbrev referring : ThreadResolutionInput
referring = record input {
  parsed_message = record hello {
    in_reply_to = "<lost@example.com>";
    references = "<m0@example.com>" ∷ "<other@example.com>" ∷ [];
  };
}

abbrev unrelated : ThreadResolutionInput
unrelated = record input { parsed_message = record hello { subject_normalized = "news" } }

resolve-first_example :
    resolve lookup ambient config referring 0 ≡ (ok (matched match_strategy_references thread), 0)
resolve-first_example =
    resolve-first lookup ambient config referring 0 by_id recent answers ("<lost@example.com>" ∷ [])
      ("<other@example.com>" ∷ []) "<m0@example.com>" thread refl (refl, tt) refl

resolve_creates_example :
    (t : Thread) × (resolve lookup ambient config unrelated 0
      ≡ (ok (record { thread = t; matched_by = "new_thread"; created = true }), 1))
    × IsOpened unrelated (some "00") t
resolve_creates_example =
    resolve_creates lookup ambient config unrelated 0 by_id recent answers (some "00") 1 tt refl
      refl

resolve-IsLive_example : IsLive config (pos 600) thread
unfolding resolve by_in_reply_to by_references by_subject is_dormant time_sub ◌-ℤ◌
resolve-IsLive_example =
    resolve-IsLive lookup config input ambient 0 (matched match_strategy_subject_recent thread)
      (omega arith) (omega arith) refl refl
