-- ===== src/Broadcast/Reach.antt =====
-- Whom a broadcast reaches, and when.
use mathlib.Core.List.{append_assoc, append-nil}
use free_fire_room.Prelude.{
  ℕ, ◌+◌, ◌≡◌, refl, sym, ap, subst, ◌∙◌, Bool-cases, inl, inr, Bool, true, List, [], ◌∷◌, ◌++◌,
  length, select, count, b2n, insert, raised, arith,
}
use free_fire_room.Model.{
  BroadcastStatus, is_sent, is_sendable, is_draft_campaign, Account, BroadcastCampaign,
  BroadcastDelivery,
}
use free_fire_room.Broadcast.{
  Post, Mailbox, outcome, is_reachable, Mailing, new_delivery, tally, interrupted, post_one,
  post_all, start_broadcast, finish_broadcast, broadcast, broadcast_already_confirmed,
  confirm_broadcast, admin_bc_confirm,
}

module _ (now : ℕ) (m : Mailbox) where
  -- one row for each user, in their order
  abbrev pub reports : ℕ → List Account → List BroadcastDelivery
  reports campaign [] = []
  reports campaign (u ∷ us) = new_delivery now campaign u (outcome m u) ∷ reports campaign us

  abbrev pub is_sent_row : BroadcastDelivery → Bool
  is_sent_row d = is_sent d.status

  length-reports : (c : ℕ) (us : List Account) → length (reports c us) ≡ length us
  length-reports c [] = refl
  length-reports c (u ∷ us) = let h = length-reports c us in omega arith

  -- what one user adds to the campaign
  sent_by_one :
      (p : Post) (c : BroadcastCampaign) (u : Account)
      → ((tally p c).sent_count ≡ c.sent_count + b2n (is_sent_row (new_delivery now c.id u p)))
        × ((tally p c).fail_count + b2n (is_sent_row (new_delivery now c.id u p))
            ≡ c.fail_count + 1)
        × ((tally p c).status ≡ c.status)
        × ((tally p c).id ≡ c.id)
  sent_by_one Post.delivered c u = (omega arith, omega arith, refl, refl)
  sent_by_one Post.retry_after c u = (omega arith, omega arith, refl, refl)
  sent_by_one Post.forbidden c u = (omega arith, omega arith, refl, refl)
  sent_by_one Post.failed c u = (omega arith, omega arith, refl, refl)

  module _ (pauses : ℕ → Bool) where
    abbrev turn : Account → Mailing → Mailing
    turn u s = post_one now m u (interrupted pauses u s)

    -- a turn, whether somebody pauses before it or not
    turn_lem :
        (u : Account) (s : Mailing)
        → ((turn u s).deliveries
            ≡ insert (new_delivery now s.loaded.id u (outcome m u)) s.deliveries)
          × ((turn u s).loaded ≡ tally (outcome m u) s.loaded)
    unfolding post_one
    turn_lem u s = elim (Bool-cases (pauses u.id)) [
      | inl e ↦ (rw e refl, rw e refl)
      | inr e ↦ (rw e refl, rw e refl)
    ]

    -- the worker's copy says running, so the loop goes on
    goes_on :
        (u : Account) (us : List Account) (s : Mailing)
        → s.loaded.status ≡ BroadcastStatus.running
        → post_all now m pauses (u ∷ us) s ≡ post_all now m pauses us (turn u s)
    unfolding post_all
    goes_on u us s h = ground arith

    -- what the loop leaves, if the worker's copy says that the campaign is running
    record Sent (s s' : Mailing) (us : List Account) : Type 0 where
      rows : s'.deliveries ≡ s.deliveries ++ reports s.loaded.id us
      sent : s'.loaded.sent_count ≡ s.loaded.sent_count + count is_sent_row (reports s.loaded.id us)
      failed :
          s'.loaded.fail_count + count is_sent_row (reports s.loaded.id us)
          ≡ s.loaded.fail_count + length us

    combine :
        (u : Account) (us : List Account) (s s1 s' : Mailing)
        → s1.deliveries ≡ insert (new_delivery now s.loaded.id u (outcome m u)) s.deliveries
        → s1.loaded ≡ tally (outcome m u) s.loaded
        → Sent s1 s' us
        → Sent s s' (u ∷ us)
    combine u us s s1 s' rows copy ih =
        let (sent, failed, status, id) = sent_by_one (outcome m u) s.loaded u in
        let key : s1.loaded.id ≡ s.loaded.id = ap (λ (c : BroadcastCampaign). c.id) copy ∙ id in
        let sents = ap (λ (c : BroadcastCampaign). c.sent_count) copy in
        let fails = ap (λ (c : BroadcastCampaign). c.fail_count) copy in
        let r = ih.rows in
        let x = ih.sent in
        let y = ih.failed in
        let r1 : s'.deliveries ≡ s1.deliveries ++ reports s.loaded.id us = rw key at r in
        let x1 : s'.loaded.sent_count
            ≡ s1.loaded.sent_count + count is_sent_row (reports s.loaded.id us) =
          rw key at x in
        let y1 : s'.loaded.fail_count + count is_sent_row (reports s.loaded.id us)
            ≡ s1.loaded.fail_count + length us =
          rw key at y in
        record {
          rows =
              r1
              ∙ ap (λ (ds : List BroadcastDelivery). ds ++ reports s.loaded.id us) rows
              ∙ append_assoc s.deliveries (new_delivery now s.loaded.id u (outcome m u) ∷ [])
                  (reports s.loaded.id us);
          sent = omega arith;
          failed = omega arith;
        }

    post_all-Sent :
        (us : List Account) (s : Mailing)
        → s.loaded.status ≡ BroadcastStatus.running
        → Sent s (post_all now m pauses us s) us
    unfolding post_all post_one
    post_all-Sent [] s h = record {
      rows = sym (append-nil s.deliveries);
      sent = omega arith;
      failed = omega arith;
    }
    post_all-Sent (u ∷ us) s h =
        let (rows, copy) = turn_lem u s in
        let (sent, failed, status, id) = sent_by_one (outcome m u) s.loaded u in
        let ih =
          post_all-Sent us (turn u s)
            (ap (λ (c : BroadcastCampaign). c.status) copy ∙ status ∙ h) in
        subst (λ (s' : Mailing). Sent s s' (u ∷ us)) (sym (goes_on u us s h))
          (combine u us s (turn u s) (post_all now m pauses us (turn u s)) rows copy ih)

    abbrev pub recipients : Mailing → List Account
    recipients s = select is_reachable s.users

    -- what a broadcast leaves, whatever was stored before
    abbrev pub IsReported : Mailing → Mailing → Type 0
    IsReported s s' =
        let rows = reports s.stored.id (recipients s) in
        (s'.stored.status ≡ BroadcastStatus.done)
        × (s'.deliveries ≡ s.deliveries ++ rows)
        × (s'.stored.sent_count ≡ s.stored.sent_count + count is_sent_row rows)
        × (s'.stored.fail_count + count is_sent_row rows
            ≡ s.stored.fail_count + length (recipients s))

    -- A campaign that is running or scheduled is sent to the end by one run of the worker, whenever
    -- somebody pauses it meanwhile: each user who is neither deleted nor has blocked the bot gets one
    -- report, in the order of the table, after those of earlier runs; the campaign is done, and
    -- sent_count and fail_count have grown by the reports that say sent and by the others.
    pub broadcast-IsReported :
        (s : Mailing) → is_sendable s.stored.status ≡ true → IsReported s (broadcast now m pauses s)
    unfolding broadcast start_broadcast finish_broadcast
    broadcast-IsReported s h =
        let all = post_all-Sent (recipients s) (start_broadcast now s) refl in
        let rows = all.rows in
        let sent = all.sent in
        let failed = all.failed in (rw h refl, rw h rows, rw h sent, rw h failed)

    confirmed_is_sendable :
        (at actor : ℕ) (c : BroadcastCampaign)
        → is_draft_campaign c.status ≡ true
        → is_sendable (confirm_broadcast at actor c).1.status ≡ true
    unfolding confirm_broadcast
    confirmed_is_sendable at actor c h = ground arith

    no_confirm :
        (again actor : ℕ) (c : BroadcastCampaign)
        → c.status ≡ BroadcastStatus.done
        → confirm_broadcast again actor c ≡ (raised broadcast_already_confirmed, c)
    unfolding confirm_broadcast
    no_confirm again actor c h = ground arith

    over : (s : Mailing) → s.stored.status ≡ BroadcastStatus.done → broadcast now m pauses s ≡ s
    unfolding broadcast
    over s h = ground arith

    -- A campaign that is confirmed by the route is sent at once, to the end, whatever moment it was
    -- scheduled for and whoever pauses it meanwhile: each user who is neither deleted nor has blocked
    -- the bot gets one report, and the counts are those of the reports; it cannot be confirmed again,
    -- nor sent again.
    pub confirmed_is_sent :
        (at again actor : ℕ) (s : Mailing)
        → is_draft_campaign s.stored.status ≡ true
        → let (answer, c) = confirm_broadcast at actor s.stored in
          let s1 : Mailing = record s { stored = c } in
          let s2 = broadcast now m pauses s1 in
          IsReported s1 s2
          × (confirm_broadcast again actor s2.stored
              ≡ (raised broadcast_already_confirmed, s2.stored))
          × (broadcast now m pauses s2 ≡ s2)
    unfolding confirm_broadcast
    confirmed_is_sent at again actor s h =
        let (answer, c) = confirm_broadcast at actor s.stored in
        let s1 : Mailing = record s { stored = c } in
        let s2 = broadcast now m pauses s1 in
        let done = broadcast-IsReported s1 (confirmed_is_sendable at actor s.stored h) in
        (done, no_confirm again actor s2.stored done.0, over s2 done.0)

    -- The bot's handler starts the worker before its own commit: a worker that reads the campaign
    -- before that finds a draft and sends nothing; after the commit the campaign says running, and
    -- cannot be confirmed again, by the bot or by the route.
    pub early_worker_strands :
        (at again actor : ℕ) (s : Mailing)
        → is_draft_campaign s.stored.status ≡ true
        → let s1 = broadcast now m pauses s in
          let (answer, c) = admin_bc_confirm at actor s1.stored in
          (s1 ≡ s)
          × (c.status ≡ BroadcastStatus.running)
          × (admin_bc_confirm again actor c ≡ (raised broadcast_already_confirmed, c))
          × (confirm_broadcast again actor c ≡ (raised broadcast_already_confirmed, c))
    unfolding broadcast admin_bc_confirm confirm_broadcast
    early_worker_strands at again actor s h =
        (ground arith, ground arith, ground arith, ground arith)
