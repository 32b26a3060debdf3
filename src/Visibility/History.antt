-- ===== src/Visibility/History.antt =====
-- The calls that change the tables, in any order, and the grants after them.
use hono_crosmos.Base.{
  ℕ, ◌≡◌, inl, inr, Bool, ◌&&◌, Option, List, [], ◌∷◌, ◌==◌, arith, Bool-cases, Option-cases, ltb,
}
use hono_crosmos.Base.Result.{Result, ok, thrown}
use hono_crosmos.Base.Tables.{count_where}
use hono_crosmos.Visibility.Store.{Db, VisibilityError, cascade}
use hono_crosmos.Visibility.Acyclic.{IsAcyclic, append-IsAcyclic, delete_where-IsAcyclic}
use hono_crosmos.Visibility.Service.{
  refusal, create_grant, delete_grant, delete_visibility_group, add_group_member,
  remove_group_member, remove_user_from_all_groups, set_visibility_enabled,
}

pub data Op : Type 0 where
  grant : ℕ → ℕ → ℕ → Option ℕ → Op
  revoke : ℕ → ℕ → Op
  delete_group : ℕ → ℕ → Op
  add_member : ℕ → ℕ → ℕ → Op
  remove_member : ℕ → ℕ → ℕ → Op
  remove_user : ℕ → ℕ → Op
  set_enabled : ℕ → Bool → Op

-- A call that throws leaves the tables as they were.
abbrev pub after : Result VisibilityError Db → Db → Db
after (ok new) db = new
after (thrown error) db = db

abbrev pub after_flag : Result VisibilityError (Bool × Db) → Db → Db
after_flag (ok (flag, new)) db = new
after_flag (thrown error) db = db

unfoldable pub apply : Op → Db → Db
apply (grant org viewer subject by) db = after (create_grant org viewer subject by db) db
apply (revoke org id) db = after (delete_grant org id db) db
apply (delete_group org group) db = after (delete_visibility_group org group db) db
apply (add_member org group user) db = after (add_group_member org group user db) db
apply (remove_member org group user) db = after (remove_group_member org group user db) db
apply (remove_user org user) db = (remove_user_from_all_groups org user db).1
apply (set_enabled org enabled) db = after_flag (set_visibility_enabled org enabled db) db

abbrev pub run : List Op → Db → Db
run [] db = db
run (op ∷ ops) db = run ops (apply op db)

module _ (db : Db) where
  create_grant-IsAcyclic :
      (org viewer subject : ℕ) (by : Option ℕ)
      → IsAcyclic db.grants
      → IsAcyclic (after (create_grant org viewer subject by db) db).grants
  unfolding create_grant
  create_grant-IsAcyclic org viewer subject by acyclic =
      elim (Option-cases (refusal org viewer subject db.grants)) [
        | inl passes ↦
            rw (passes, create_grant)
              (append-IsAcyclic org viewer subject db.next_grant_id by db.grants passes acyclic)
        | inr (error, refused) ↦ rw (refused, create_grant) acyclic
      ]

  delete_grant-IsAcyclic :
      (org id : ℕ) → IsAcyclic db.grants → IsAcyclic (after (delete_grant org id db) db).grants
  unfolding delete_grant
  delete_grant-IsAcyclic org id acyclic =
      elim (Bool-cases (ltb 0 (count_where (λ g. g.org_id == org && g.id == id) db.grants))) [
        | inl found ↦ rw (found, delete_grant) (delete_where-IsAcyclic _ db.grants acyclic)
        | inr missing ↦ rw (missing, delete_grant) acyclic
      ]

  delete_visibility_group-IsAcyclic :
      (org group : ℕ)
      → IsAcyclic db.grants
      → IsAcyclic (after (delete_visibility_group org group db) db).grants
  unfolding delete_visibility_group cascade
  delete_visibility_group-IsAcyclic org group acyclic =
      elim (Bool-cases (ltb 0 (count_where (λ g. g.org_id == org && g.id == group) db.groups))) [
        | inl found ↦
            rw (found, delete_visibility_group) (delete_where-IsAcyclic _ db.grants acyclic)
        | inr missing ↦ rw (missing, delete_visibility_group) acyclic
      ]

  -- The other operations leave the grants alone.
  add_group_member-grants :
      (org group user : ℕ) → (after (add_group_member org group user db) db).grants ≡ db.grants
  unfolding add_group_member
  add_group_member-grants org group user = ground arith

  remove_group_member-grants :
      (org group user : ℕ) → (after (remove_group_member org group user db) db).grants ≡ db.grants
  unfolding remove_group_member
  remove_group_member-grants org group user = ground arith

  set_visibility_enabled-grants :
      (org : ℕ) (enabled : Bool)
      → (after_flag (set_visibility_enabled org enabled db) db).grants ≡ db.grants
  unfolding set_visibility_enabled
  set_visibility_enabled-grants org enabled = ground arith

apply-IsAcyclic : (op : Op) (db : Db) → IsAcyclic db.grants → IsAcyclic (apply op db).grants
unfolding apply remove_user_from_all_groups
apply-IsAcyclic (grant org viewer subject by) db h =
    create_grant-IsAcyclic db org viewer subject by h
apply-IsAcyclic (revoke org id) db h = delete_grant-IsAcyclic db org id h
apply-IsAcyclic (delete_group org group) db h = delete_visibility_group-IsAcyclic db org group h
apply-IsAcyclic (add_member org group user) db h = rw (add_group_member-grants db org group user) h
apply-IsAcyclic (remove_member org group user) db h =
    rw (remove_group_member-grants db org group user) h
apply-IsAcyclic (remove_user org user) db h = h
apply-IsAcyclic (set_enabled org enabled) db h = rw (set_visibility_enabled-grants db org enabled) h

-- Whatever calls are made, one after the other, from tables whose grants lead no group back to
-- itself, the grants after them lead no group of any org back to itself.
pub run-IsAcyclic : (ops : List Op) (db : Db) → IsAcyclic db.grants → IsAcyclic (run ops db).grants
run-IsAcyclic [] db h = h
run-IsAcyclic (op ∷ ops) db h = run-IsAcyclic ops (apply op db) (apply-IsAcyclic op db h)
