-- ===== src/Tests/Sending.antt =====
-- The sweep of event 1.
use free_fire_room.Prelude.{if◌then◌else◌, ltb, ◌≡◌, ◌+◌, ◌*◌, some, none, find, arith}
use free_fire_room.Prelude.{ℕ, ◌+◌, ◌*◌, ◌≡◌, refl, true, Option, none, some, find, arith}
use free_fire_room.Model.{default_settings, minute, JobStatus, ScheduledJob, User}
use free_fire_room.Windows.{fill_deadline}
use free_fire_room.Delivery.{Sending}
use free_fire_room.Scheduler.{with_key}
use free_fire_room.Dispatch.{no_tally, close_round}
use free_fire_room.Dispatch.Sweep.{close_round-sweeps}
use free_fire_room.Tests.Data.{cup, player, room, sending_job, db}
use free_fire_room.Tests.Seats.{members}

abbrev all_delivered : User → Sending
all_delivered u = Sending.delivered 1

abbrev some_users : ℕ → Option User
some_users k = some (player k)

close_round-sweeps_example :
    let told : ScheduledJob = record sending_job {
      payload = record sending_job.payload { organizer_notified = true };
    } in
    find
      (with_key 1 sending_job.slot)
      (close_round default_settings 500 members all_delivered some_users cup room no_tally
        sending_job db).jobs
    ≡ some (
        if ltb 500 (fill_deadline default_settings cup)
        then record told {
          status = JobStatus.pending;
          run_at = 500 + 2 * minute;
          attempts = 0;
          max_attempts = 40;
          last_error = none;
          completed_at = none;
        }
        else record told { status = JobStatus.done; completed_at = some 500 })
close_round-sweeps_example =
    close_round-sweeps default_settings 500 members all_delivered some_users cup room no_tally
      sending_job sending_job db refl (omega arith)
