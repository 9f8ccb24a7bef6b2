-- ===== src/Examples/Inbound.antt =====
-- A message that is handled, and handled again.
use agent_layer.Prelude.{String, eq_iff, ◌≢◌, ◌≡◌, refl, arith}
use agent_layer.Prelude.Exec.{Result, ok}
use agent_layer.Prelude.Dict
use agent_layer.Contacts
use agent_layer.Core
use agent_layer.Inbound.Recorder
use agent_layer.Inbound.Service
use agent_layer.Memory.Listing
use agent_layer.Memory.Messages
use agent_layer.Memory.Records
use agent_layer.Platform
use agent_layer.Prelude.Int.{◌-ℤ◌}
use agent_layer.Threading
use agent_layer.Inbound.Service.{HandleResult, handle_stored_message}
use agent_layer.Runtime.World.{World}
use agent_layer.Runtime.Wiring.{inbound_base}
use agent_layer.Runtime.Reads.{Same}
use agent_layer.Runtime.Known.{duplicate_result}
use agent_layer.Runtime.Duplicates.{IsStored, handle-IsStored, handle_again}
use agent_layer.Examples.Scene.{env, world, received, hello, ann, thread, earlier, result_or}

abbrev handled : Result HandleResult × World
unfolding handle_stored_message
handled = handle_stored_message (inbound_base env) received world

abbrev none_handled : HandleResult
none_handled = duplicate_result hello ann thread earlier

abbrev answer : HandleResult
unfolding handled
answer = result_or none_handled handled.0

inbox-ne-empty : ◌≢◌ {A = String} "inbox-local" ""
inbox-ne-empty = ground (arith, eq_iff "inbox-local" "")

m1-ne-empty : ◌≢◌ {A = String} "<m1@example.com>" ""
m1-ne-empty = ground (arith, eq_iff "<m1@example.com>" "")

handled_lem : handled ≡ (ok answer, handled.1)
unfolding handled answer handle_stored_message Dict.get Recorder.process Records.get_raw
    Contacts.resolve Records.find_by_email Threading.resolve Threading.by_in_reply_to
    Threading.by_references Threading.by_subject Listing.find_most_recent_by_subject Dict.values
    Threading.new_config Threading.time_sub ◌-ℤ◌ Messages.find_inbound_by_header
    Recorder.record_inbound Records.upsert_by_email Records.save_thread Contacts.first_seen
    Contacts.new_contact_id Contacts.seen_again Core.generated_id Recorder.inbound_message
    Recorder.new_message_id Recorder.touched Service.find_duplicate Service.record_new
    Service.report_duplicate Listing.scan_subject Messages.create_message
    Messages.find_by_message_id Messages.scan_message_id Records.get_contact_by_id
    Records.get_thread_by_id Records.merge_thread Platform.inbound_message_key Platform.scoped_key
    Dict.put Threading.after_in_reply_to Threading.after_references Threading.after_subject
    Threading.create Threading.is_dormant Threading.new_thread Threading.new_thread_id
handled_lem = refl

handle-IsStored_example : IsStored env received answer handled.1.store
unfolding handled Dict.get
handle-IsStored_example =
    handle-IsStored env received world handled.1 hello answer inbox-ne-empty refl m1-ne-empty
      handled_lem

handle_again_example :
    (w'' : World) × (handle_stored_message (inbound_base env) received handled.1 ≡ (
      ok (duplicate_result answer.parsed_message answer.contact answer.thread answer.message),
      w'',
    ))
    × Same handled.1 w''
unfolding handled Dict.get
handle_again_example =
    handle_again env received world handled.1 hello answer inbox-ne-empty refl m1-ne-empty
      handled_lem
