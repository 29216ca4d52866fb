-- ===== src/Storage/Inbox.antt =====
-- cass_storage_service.py: what the loop of `ReadInbox` keeps of the rows.
use tiny_chat_microservices.Prelude.{
  ℕ, ◌+◌, ◌≤◌, ◌≡◌, refl, Bool, true, ◌&&◌, Option, none, some, List, [], ◌∷◌, ◌==◌, if◌then◌else◌,
  arith,
}
use tiny_chat_microservices.Storage.{Row, is_handled, filter_rows}

-- The same message of a sender
abbrev pub same_message : Row → Row → Bool
same_message h row = (h.sender_id == row.sender_id) && (h.sender_seq == row.sender_seq)

-- How many rows hold the message of a row, and the first one of them.
unfoldable pub copies : List Row → Row → ℕ
copies [] row = 0
copies (h ∷ rows) row = (if same_message h row then 1 else 0) + copies rows row

unfoldable pub first_copy : List Row → Row → Option Row
first_copy [] row = none
first_copy (h ∷ rows) row = if same_message h row then some h else first_copy rows row

handled_same :
    (handled : List Row) (h row : Row)
    → same_message h row ≡ true
    → is_handled handled h ≡ is_handled handled row
unfolding is_handled
handled_same [] h row e = refl
handled_same (k ∷ handled) h row e = ground (arith, handled_same handled h row)

copies-filter_rows :
    (handled rows : List Row) (row : Row)
    → copies (filter_rows handled rows) row + (if is_handled handled row then 1 else 0) ≤ 1
unfolding copies filter_rows is_handled
copies-filter_rows handled [] row = ground arith
copies-filter_rows handled (h ∷ rows) row = ground (
  arith,
  copies-filter_rows handled rows row,
  copies-filter_rows (h ∷ handled) rows row,
  handled_same handled h row,
)

first_copy-filter_rows :
    (handled rows : List Row) (row : Row)
    → first_copy (filter_rows handled rows) row
      ≡ (if is_handled handled row then none else first_copy rows row)
unfolding first_copy filter_rows is_handled
first_copy-filter_rows handled [] row = ground arith
first_copy-filter_rows handled (h ∷ rows) row = ground (
  arith,
  first_copy-filter_rows handled rows row,
  first_copy-filter_rows (h ∷ handled) rows row,
  handled_same handled h row,
)

-- Of each message of a sender the loop keeps the first row and no other one.
pub filter_rows-first :
    (rows : List Row) (row : Row)
    → (copies (filter_rows [] rows) row ≤ 1)
      × (first_copy (filter_rows [] rows) row ≡ first_copy rows row)
unfolding is_handled
filter_rows-first rows row =
    (ground (arith, copies-filter_rows [] rows row), first_copy-filter_rows [] rows row)
