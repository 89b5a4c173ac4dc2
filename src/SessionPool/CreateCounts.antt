-- ===== src/SessionPool/CreateCounts.antt =====
-- How many sessions to create on each channel: the loop of `SessionPool::ComputeCreateCounts`.
use google_cloud_cpp_spanner.Prelude.{ℕ, suc, ◌-◌, List, [], ◌∷◌, ltb, length, if◌then◌else◌}
use google_cloud_cpp_spanner.Prelude.Int.{ℤ, pos, pos_part, ◌+ℤ◌, ◌-ℤ◌, ltb_ℤ, quot}

-- `Channel`: the stub, by the number that names it, and the sessions that exist on the channel.
pub record Channel : Type 0 where
  pub stub : ℕ
  pub session_count : ℕ

-- A shared pointer to a channel, as `channels_by_count` holds it: its place in `channels_`.
pub record ChannelRef : Type 0 where
  pub index : ℕ
  pub session_count : ℕ

-- `CreateCount`: a request to create `session_count` sessions on a channel.
pub record CreateCount : Type 0 where
  pub channel : ℕ
  pub session_count : ℕ

unfoldable pub refs_from : ℕ → List Channel → List ChannelRef
refs_from i [] = []
refs_from i (c ∷ cs) = record { index = i; session_count = c.session_count } ∷ refs_from (suc i) cs

-- `std::sort` with `>` on the session counts; ties keep their order here.
unfoldable pub insert_desc : ChannelRef → List ChannelRef → List ChannelRef
insert_desc c [] = c ∷ []
insert_desc c (d ∷ ds) =
    if ltb d.session_count c.session_count then c ∷ d ∷ ds else d ∷ insert_desc c ds

unfoldable pub sort_desc : List ChannelRef → List ChannelRef
unfolding insert_desc
sort_desc [] = []
sort_desc (c ∷ cs) = insert_desc c (sort_desc cs)

-- The target of a channel: the sessions that remain over the channels that remain, rounded up.
unfoldable pub target_for : ℤ → ℕ → ℤ
unfolding ◌+ℤ◌ ◌-ℤ◌ quot
target_for sessions_remaining channels_remaining =
    quot (sessions_remaining +ℤ pos channels_remaining -ℤ pos 1) channels_remaining

-- The loop over `channels_by_count`. `pos_part` is exact: a created count is positive.
unfoldable pub create_loop : ℤ → ℕ → List ChannelRef → List CreateCount
unfolding target_for
create_loop sessions_remaining channels_remaining [] = []
create_loop sessions_remaining channels_remaining (channel ∷ rest) =
    let target = target_for sessions_remaining channels_remaining in
    let short = ltb_ℤ (pos channel.session_count) target in
    let taken = if short then target else pos channel.session_count in
    let counts = create_loop (sessions_remaining -ℤ taken) (channels_remaining - 1) rest in
    if short
    then record {
      channel = channel.index;
      session_count = pos_part (target -ℤ pos channel.session_count);
    }
      ∷ counts
    else counts

-- `ComputeCreateCounts` past its test for an exhausted pool, with `target_total_sessions`.
unfoldable pub counts_for : ℤ → List Channel → List CreateCount
unfolding create_loop refs_from sort_desc
counts_for target_total_sessions channels =
    create_loop target_total_sessions (length channels) (sort_desc (refs_from 0 channels))
