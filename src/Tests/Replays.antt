-- ===== src/Tests/Replays.antt =====
-- A write that the client sends twice, with a view that counts its runs.
use schapp.Base.{ℕ, ◌+◌, ◌≡◌, refl, false, none, [], codes, Text, text_eq, if◌then◌else◌}
use schapp.Idempotency.{
  Method, Request, Response, World, Answer, answered, raised, find_record, claimed, fingerprint,
  replay, passes, call, answered_claim, in_progress, key_reused, release,
}
use schapp.Idempotency.Replay.{
  KeepsRecords, IsClaiming, by_exception, call-failed, call-concurrent, call-replay, meanwhile,
}

abbrev sha : Text → Text
sha text = text

-- ASCII bytes.
abbrev decoded : Text → Text
decoded bytes = bytes

abbrev payment_request : Request
payment_request = record {
  key = codes "k1";
  method = Method.post;
  path = codes "/p";
  body = codes "b";
  content_type = codes "application/json";
}

abbrev created : Response
created = record {
  status_code = 201;
  content = codes "done";
  content_type = codes "application/json";
  streaming = false;
  replayed = false;
  retry_after = none;
}

abbrev counting : Request → World ℕ → Answer × World ℕ
counting request w = (answered created, record w { database = w.database + 1 })

abbrev crashing : Request → World ℕ → Answer × World ℕ
crashing request w = (raised, w)

abbrev fresh : World ℕ
fresh = record { records = []; database = 0 }

fresh-IsClaiming : IsClaiming payment_request fresh
unfolding passes find_record
fresh-IsClaiming = record { guarded = refl; short = refl; unclaimed = refl }

counting-KeepsRecords : KeepsRecords counting
counting-KeepsRecords request w = refl

write_passes : passes payment_request ≡ false
unfolding passes
write_passes = refl

call-replay_example :
    let after = (call sha decoded counting 5 payment_request fresh).1 in
    call sha decoded counting 9 payment_request after
    ≡ (answered (replay (answered_claim decoded 5 created (claimed sha payment_request))), after)
call-replay_example =
    call-replay sha decoded counting 5 9 payment_request payment_request fresh created
      counting-KeepsRecords fresh-IsClaiming refl refl refl refl refl refl write_passes

call-failed_example :
    find_record (codes "k1") (call sha decoded crashing 5 payment_request fresh).1.records ≡ none
call-failed_example =
    call-failed sha decoded crashing 5 payment_request fresh fresh-IsClaiming by_exception

call-concurrent_example :
    call sha decoded (meanwhile sha decoded counting 6 payment_request) 5 payment_request fresh ≡ (
      answered (
          if text_eq (fingerprint sha payment_request) (fingerprint sha payment_request)
          then in_progress
          else key_reused),
      record fresh { records = release payment_request.key fresh.records },
    )
call-concurrent_example =
    call-concurrent sha decoded counting 5 6 payment_request payment_request fresh fresh-IsClaiming
      refl write_passes
