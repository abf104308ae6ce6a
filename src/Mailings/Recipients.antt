-- ===== src/Mailings/Recipients.antt =====
-- Who gets a mailing, and how it is counted.
use free_fire_room.Prelude.{
  ℕ, ◌+◌, ◌≡◌, Bool, true, false, ◌&&◌, List, length, select, any, All, ◌⊎◌, ◌==◌,
}
use free_fire_room.Model.{Registration, Account}
use free_fire_room.Mailings.{Round, is_subscribed, Reminded, confirmed_player}

abbrev pub handled : Round → ℕ
handled r = r.sent + r.failed + r.skipped

-- a subscribed user of the table, by the id
abbrev pub is_subscriber : List Account → ℕ → Bool
is_subscriber users k = any (λ v. is_subscribed v && v.id == k) users

-- a confirmed player of the event, by the id
abbrev pub is_player : ℕ → List Registration → ℕ → Bool
is_player event_id regs k = any (λ r. confirmed_player event_id r && r.user_id == k) regs

-- whom the message to everyone else may reach
abbrev pub IsOther : ℕ → List Registration → List Account → ℕ → Type 0
IsOther event_id regs users k = (is_player event_id regs k ≡ false) × (is_subscriber users k ≡ true)

-- what a reminder leaves
abbrev pub IsFair : ℕ → List Registration → List Account → Reminded → Type 0
IsFair event_id regs users x =
    All (λ k. is_player event_id regs k ≡ true) x.players
    × All (IsOther event_id regs users) x.others.written
    × ((handled x.others ≡ 0) ⊎ (handled x.others ≡ length (select is_subscribed users)))
