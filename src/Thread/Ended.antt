-- ===== src/Thread/Ended.antt =====
-- A delegation that has ended keeps its status through the loop of `merge_delegations`.
use poor_travel_agent.Base.{
  Bool-cases, str-eq→eq, inl, inr, ◌⊎◌, String, ◌≡◌, refl, sym, ◌∙◌, true, false, Option, none,
  some, List, [], ◌∷◌, ◌==◌, eq_iff, arith, subst,
}
use poor_travel_agent.Base.Effect.{Result, ok, raised}
use poor_travel_agent.Base.Effect.Inverse.{ok-ne-raised}
use poor_travel_agent.Base.Dict.{Dict, lookup, put, lookup-put}
use poor_travel_agent.Thread.Update.{Error}
use poor_travel_agent.Thread.Goal.{is_other}
use poor_travel_agent.Thread.Keyed.{
  set_accepted, collect, DelegationEntry, is_ended, update_delegation, accept_keyed,
  accept_delegation,
}
use poor_travel_agent.Thread.Unique.{same, collect_nil, step_ok}

-- the dict has this id, with this status
pub record HasStatus (id : String) (status : Option String) (d : Dict DelegationEntry)
    : Type 0 where
  pub entry : DelegationEntry
  pub is_there : lookup id d ≡ some entry
  pub has_status : entry.status ≡ status

not_other : (a b : Option String) → is_other a b ≡ false → a ≡ b
unfolding is_other
not_other none none h = refl
not_other none (some b) h = cc
not_other (some a) none h = cc
not_other (some a) (some b) h = ground (arith, h, eq_iff a b)

-- What an entry that is set over one that has ended has as its status.
update_status :
    (k j : String) (previous entry v : DelegationEntry)
    → is_ended previous.status ≡ true
    → update_delegation k (some previous) entry ≡ ok (some (j, v))
    → (j ≡ k) × (v.status ≡ previous.status)
update_status k j previous entry v h q =
    ground (arith, h, q, not_other previous.status entry.status)

update_key :
    (k j : String) (o : Option DelegationEntry) (entry v : DelegationEntry)
    → update_delegation k o entry ≡ ok (some (j, v))
    → j ≡ k
update_key k j none entry v q = ground (arith, q)
update_key k j (some previous) entry v q = ground (arith, q)

keyed_update :
    (k j : String) (d : Dict DelegationEntry) (entry v : DelegationEntry)
    → accept_keyed (some k) d entry ≡ ok (some (j, v))
    → update_delegation k (lookup k d) entry ≡ ok (some (j, v))
keyed_update k j d entry v q = ground (arith, q)

accepted_status :
    (key : Option String) (id j : String) (status : Option String) (d : Dict DelegationEntry)
    (entry v : DelegationEntry)
    → HasStatus id status d
    → is_ended status ≡ true
    → accept_keyed key d entry ≡ ok (some (j, v))
    → j ≡ id
    → v.status ≡ status
accepted_status none id j status d entry v h f q e = absurd (ok-ne-raised _ q refl)
accepted_status (some k) id j status d entry v h f q e =
    let set = keyed_update k j d entry v q in
    let here : lookup k d ≡ some h.entry =
      subst (λ x. lookup x d ≡ some h.entry) (sym e ∙ update_key k j (lookup k d) entry v set)
        h.is_there in
    let over = subst (λ o. update_delegation k o entry ≡ ok (some (j, v))) here set in
    (update_status k j h.entry entry v (subst (λ x. is_ended x ≡ true) (sym h.has_status) f) over).1
    ∙ h.has_status

set_status :
    (id : String) (status : Option String) (d e : Dict DelegationEntry)
    (r : Result Error (Option (String × DelegationEntry)))
    → ((j : String) (v : DelegationEntry) → r ≡ ok (some (j, v)) → j ≡ id → v.status ≡ status)
    → HasStatus id status d
    → set_accepted d r ≡ ok e
    → HasStatus id status e
set_status id status d e (raised x) f h q = absurd (ok-ne-raised _ q refl)
set_status id status d e (ok none) f h q = subst (HasStatus id status) (same refl q) h
set_status id status d e (ok (some (j, v))) f h q =
    subst (HasStatus id status) (same refl q) (put_status (Bool-cases (j == id)))
  where
    put_status : ((j == id) ≡ true) ⊎ ((j == id) ≡ false) → HasStatus id status (put j v d)
    put_status (inl s) = record {
      entry = v;
      is_there = ground (arith, s, lookup-put j id v d);
      has_status = f j v refl (str-eq→eq j id s);
    }
    put_status (inr n) = record {
      entry = h.entry;
      is_there = ground (arith, n, h.is_there, lookup-put j id v d);
      has_status = h.has_status;
    }

-- A delegation that the dict of `merge_delegations` has as succeeded, failed, cancelled or timed out
-- is there with that status after every further entry that the loop accepts.
pub ended_status_stays :
    (xs : List DelegationEntry) (d t : Dict DelegationEntry) (id : String) (status : Option String)
    → is_ended status ≡ true
    → HasStatus id status d
    → collect accept_delegation d xs ≡ ok t
    → HasStatus id status t
unfolding accept_delegation
ended_status_stays [] d t id status f h q =
    subst (HasStatus id status) (collect_nil accept_delegation d q) h
ended_status_stays (x ∷ xs) d t id status f h q =
    let (e, p, rest) = step_ok accept_delegation d x xs q in
    ended_status_stays xs e t id status f
      (set_status id status d e (accept_delegation d x)
        (λ j v r. accepted_status x.id id j status d x v h f r) h p)
      rest
