-- ===== src/Loop/Tests.antt =====
-- The theorems on the repair loop at concrete calls: a run, its outcomes, and a merge.
use poor_travel_agent.Base.{
  ℕ, not, String, ◌≡◌, refl, ◌≢◌, true, false, List, [], ◌∷◌, Option, none, some, arith, all,
}
use poor_travel_agent.Base.Text.{codes, join_words}
use poor_travel_agent.Base.Effect.{ok, raised, pure, raise, transaction, ◌>>=◌}
use poor_travel_agent.Base.Dict.{lookup, put, remove}
use poor_travel_agent.Loop.Tables.{lease_busy, lease_lost, Lease, Settings, Db, Context}
use poor_travel_agent.Loop.Lease.{
  take_token, store_lease, delete_lease, require_expired, grant_lease, acquire_lease,
  assert_lease_row,
}
use poor_travel_agent.Loop.Runs.{set_enabled, store_enabled, is_enabled, bounded}
use poor_travel_agent.Loop.PullRequests.{pass, PullRequestReceipt}
use poor_travel_agent.Loop.Requests.{Request, open_pull_request, review, merge, serve}
use poor_travel_agent.Loop.Fencing.{lease_excludes, stale_lease_lost}
use poor_travel_agent.Loop.Gates.{all_gated, merges_are_gated}
use poor_travel_agent.Loop.Pause.{outcomes, has_three, pauses_on_three}

abbrev initial : Settings
initial = record {
  enabled = some "0";
  mode = some "DRY_RUN";
  consecutive_error_code = none;
  consecutive_error_count = none;
}

abbrev empty : Db
empty = record {
  fences = [];
  leases = [];
  runs = [];
  pull_requests = [];
  scan_cursors = [];
  settings = initial;
}

abbrev at_time : ℕ → Context
at_time t = record { timestamp = t; iso_now = "2026-01-01T00:00:00+00:00" }

abbrev lease1 : Lease
lease1 = record {
  resource = "loop";
  run_id = "run-1";
  owner_id = "a";
  fencing_token = 1;
  expires_at = 110;
}

abbrev lease2 : Lease
lease2 = record {
  resource = "loop";
  run_id = "run-2";
  owner_id = "b";
  fencing_token = 2;
  expires_at = 210;
}

abbrev leased : Db
leased = record {
  fences = ("loop", 2) ∷ [];
  leases = ("loop", lease1) ∷ [];
  runs = [];
  pull_requests = [];
  scan_cursors = [];
  settings = initial;
}

abbrev leased_again : Db
leased_again = record {
  fences = ("loop", 3) ∷ [];
  leases = ("loop", lease2) ∷ [];
  runs = [];
  pull_requests = [];
  scan_cursors = [];
  settings = initial;
}

acquired1 : acquire_lease (at_time 100) "loop" "run-1" "a" 10 empty ≡ (ok lease1, leased)
unfolding acquire_lease require_expired grant_lease take_token store_lease delete_lease transaction
    raise pure ◌>>=◌ lookup put remove
acquired1 = refl

acquired2 :
    acquire_lease (at_time 200) "loop" "run-2" "b" 10 (serve leased []) ≡ (ok lease2, leased_again)
unfolding serve acquire_lease require_expired grant_lease take_token store_lease delete_lease
    transaction raise pure ◌>>=◌ lookup put remove
acquired2 = refl

lease_excludes_example :
    acquire_lease (at_time 105) "loop" "run-2" "b" 10 leased ≡ (raised lease_busy, leased)
lease_excludes_example =
    lease_excludes (at_time 100) (at_time 105) "loop" "run-1" "a" "run-2" "b" 10 10 empty leased
      lease1 acquired1 (omega arith) (omega arith)

stale_lease_lost_example :
    assert_lease_row (at_time 205) lease1 (serve leased_again [])
    ≡ (raised lease_lost, serve leased_again [])
stale_lease_lost_example =
    stale_lease_lost (at_time 100) (at_time 200) (at_time 205) "loop" "run-1" "a" "run-2" "b" 10 10
      empty leased leased_again lease1 lease2 [] [] acquired1 acquired2

abbrev receipt : PullRequestReceipt
receipt = record {
  number = 7;
  url = "https://example.org/7";
  branch = "loop/fix";
  head_sha = "0123456789abcdef0123456789abcdef01234567";
}

abbrev merging : List (Context × Request)
merging =
    (at_time 101, open_pull_request lease1 receipt "base" "A" "2026-01-01")
    ∷ (at_time 102, review lease1 7 receipt.head_sha pass [])
    ∷ (at_time 103, merge lease1 7 receipt.head_sha "89abcdef0123456789abcdef0123456789abcdef")
    ∷ []

leased_gated : all_gated leased ≡ true
unfolding all_gated
leased_gated = refl

merges_are_gated_example : all_gated (serve leased merging) ≡ true
merges_are_gated_example = merges_are_gated leased merging leased_gated

abbrev enabled : Db
enabled = record {
  fences = [];
  leases = [];
  runs = [];
  pull_requests = [];
  scan_cursors = [];
  settings = record {
    enabled = some "1";
    mode = some "DRY_RUN";
    consecutive_error_code = some "";
    consecutive_error_count = some 0;
  };
}

enabled_is : set_enabled true "DRY_RUN" empty ≡ (ok tt, enabled)
unfolding set_enabled store_enabled transaction raise
enabled_is = refl

abbrev three_timeouts : List (Option String)
three_timeouts = some "timeout" ∷ none ∷ some "timeout" ∷ some "timeout" ∷ some "timeout" ∷ []

pauses_on_three_example :
    is_enabled (outcomes enabled.settings three_timeouts) ≡ not (has_three three_timeouts)
pauses_on_three_example = pauses_on_three "DRY_RUN" empty enabled tt three_timeouts enabled_is

three_timeouts_pause : has_three three_timeouts ≡ true
unfolding has_three
three_timeouts_pause = refl

bounded_example : bounded (codes "  a\n b  ") 3 ≡ codes "a b"
unfolding bounded join_words poor_travel_agent.Base.Text.is_space
bounded_example = refl
