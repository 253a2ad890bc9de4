-- ===== src/Protocol/MessageId/Sequence.antt =====
-- The sequence of MessageIDs that a counter hands out.
use hislip.Prelude.{ℕ, zero, suc, ◌+◌, ◌*◌, ◌%◌, ◌^◌, ◌≡◌, refl, arith, true}
use hislip.Protocol.MessageId.{
  Counter, initial_message_id, status_query_initial_message_id, new_counter, take_id, last_id,
}

-- The counter after `n` calls of Take.
unfoldable pub taken : ℕ → Counter
taken zero = new_counter
taken (suc n) = (take_id (taken n)).1

taken-started :
    (n : ℕ)
    → ((taken n).started ≡ true) × ((taken n).current ≡ (initial_message_id + 2 * n) % 2 ^ 32)
unfolding taken new_counter take_id
taken-started zero = (refl, refl)
taken-started (suc n) = ground (arith, taken-started n)

-- The (n+1)-st Take of a session gives the initial MessageID plus 2 n, wrapped to 32 bits. What Last
-- answers after it is the ID of that Take; before the first one it is the initial query ID.
pub take-taken :
    (n : ℕ)
    → ((take_id (taken n)).0 ≡ (initial_message_id + 2 * n) % 2 ^ 32)
      × ((last_id (taken (suc n))).0 ≡ (take_id (taken n)).0)
      × ((last_id (taken 0)).0 ≡ status_query_initial_message_id)
unfolding taken new_counter take_id last_id
take-taken n = ground (arith, taken-started n)
