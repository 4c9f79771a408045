-- ===== src/Vfs/Ledger/Counting.antt =====
-- Counting the backend's files (src/luaext_vfs.c) moves no handle and no charge.
use lua_ext.Base.{
  ℕ, zero, suc, ◌+◌, refl, Bool, true, false, Option, none, some, List, [], ◌∷◌, ltb, leb, ◌==◌,
  if◌then◌else◌,
}
use lua_ext.Vfs.{
  Bytes, Env, Sandbox, Outcome, done, refused, failed, raised, Action, pure, call, is_over,
}
use lua_ext.Vfs.Files.{
  root, until_nul, child_of, is_child_name, says_directory, tolerating, outcome, count_found,
  count_entry, count_entries, count_listed, count_files, count_all, count_max_depth, know_count,
  take_file, charge_new_file,
}
use lua_ext.Vfs.Handles.{
  SameHandles, SameHandles-trans, refl_handles, follow_lem, if_lem, IsCalm, bind-IsCalm,
  call-SameHandles,
}

module _ {W B : Type 0} (E : Env W B) where
  outcome-IsCalm :
      {A C : Type 0} (m : Action W B A) (k : Outcome A → Action W B C)
      → IsCalm m
      → ((o : Outcome A) → IsCalm (k o))
      → IsCalm (outcome m k)
  outcome-IsCalm m k p q s = SameHandles-trans (p s) (q (m s).0 (m s).1)

  tolerating-IsCalm :
      {A C : Type 0} (c : C) (k : A → Action W B C)
      → ((a : A) → IsCalm (k a))
      → (o : Outcome A) → IsCalm (tolerating c k o)
  tolerating-IsCalm c k p (done a) s = p a s
  tolerating-IsCalm c k p refused s = refl_handles s
  tolerating-IsCalm c k p failed s = refl_handles s
  tolerating-IsCalm c k p (raised e) s = refl_handles s

  abbrev IsCalmWalk : (Bytes → ℕ → Action W B ℕ) → Type 0
  IsCalmWalk walk = (dir : Bytes) (n : ℕ) → IsCalm (walk dir n)

  if_IsCalm :
      {A : Type 0} (c : Bool) (m n : Action W B A)
      → IsCalm m
      → IsCalm n
      → IsCalm (if c then m else n)
  if_IsCalm true m n p q = p
  if_IsCalm false m n p q = q

  count_entry-IsCalm :
      (walk : Bytes → ℕ → Action W B ℕ) (dir : Bytes) (entry : Option Bytes) (count : ℕ)
      → IsCalmWalk walk
      → IsCalm (count_entry E walk dir entry count)
  count_entry-IsCalm walk dir none count w = refl_handles
  count_entry-IsCalm walk dir (some name) count w =
      if_IsCalm (is_child_name name) _ (pure count)
        (outcome-IsCalm (call E false (E.host.stat (child_of dir name)))
          (tolerating (count + 1) (count_found E walk (child_of dir name) count))
          (call-SameHandles E false _)
          (tolerating-IsCalm (count + 1) _
            λ stat. if_IsCalm (says_directory stat) _ _ (w (child_of dir name) count) refl_handles))
        refl_handles

  count_entries-IsCalm :
      (walk : Bytes → ℕ → Action W B ℕ) (ceiling : ℕ) (dir : Bytes) (entries : List (Option Bytes))
      (count : ℕ)
      → IsCalmWalk walk
      → IsCalm (count_entries E walk ceiling dir entries count)
  unfolding count_entries
  count_entries-IsCalm walk ceiling dir [] count w = refl_handles
  count_entries-IsCalm walk ceiling dir (e ∷ es) count w =
      if_IsCalm (ltb ceiling count) (pure count) _ refl_handles (
        bind-IsCalm (count_entry E walk dir e count) (λ n. count_entries E walk ceiling dir es n)
          (count_entry-IsCalm walk dir e count w)
          (λ n. count_entries-IsCalm walk ceiling dir es n w))

  count_listed-IsCalm :
      (walk : Bytes → ℕ → Action W B ℕ) (ceiling : ℕ) (dir : Bytes) (count : ℕ)
      (found : Option (List (Option Bytes)))
      → IsCalmWalk walk
      → IsCalm (count_listed E walk ceiling dir count found)
  count_listed-IsCalm walk ceiling dir count none w = refl_handles
  count_listed-IsCalm walk ceiling dir count (some es) w =
      count_entries-IsCalm walk ceiling dir es count w

  count_files-IsCalm :
      (fuel ceiling depth : ℕ) (dir : Bytes) (count : ℕ)
      → IsCalm (count_files E fuel ceiling depth dir count)
  unfolding count_files
  count_files-IsCalm zero ceiling depth dir count = refl_handles
  count_files-IsCalm (suc fuel) ceiling depth dir count =
      if_IsCalm (is_over E.quota.max_path_depth depth) (pure count) _ refl_handles (
        outcome-IsCalm (call E false (E.host.list (until_nul dir)))
          (tolerating count
            (count_listed E (count_files E fuel ceiling (depth + 1)) ceiling dir count))
          (call-SameHandles E false _)
          (tolerating-IsCalm count _ λ found.
            count_listed-IsCalm (count_files E fuel ceiling (depth + 1)) ceiling dir count found
              (λ d n. count_files-IsCalm fuel ceiling (depth + 1) d n)))

  know_count-IsCalm : IsCalm (know_count E)
  know_count-IsCalm s =
      if_lem (λ (r : Outcome (Unit {0}) × Sandbox W B). SameHandles s r.1) s.file_count_known _ _
        (λ _. refl_handles s)
        (λ _.
          follow_lem (SameHandles s) (SameHandles s) _ (count_all E s)
            (count_files-IsCalm (suc count_max_depth) E.quota.max_files 0 root 0 s) (λ s v. v)
            (λ n s' v. record {
              handles = v.handles;
              memory = v.memory;
              buffered = v.buffered;
              open_handles = v.open_handles;
              sweeping = v.sweeping;
            }))

  take_file-IsCalm : IsCalm (take_file E)
  take_file-IsCalm s =
      if_lem (λ (r : Outcome (Unit {0}) × Sandbox W B). SameHandles s r.1)
        (leb E.quota.max_files s.file_count) _ _ (λ _. refl_handles s)
        (λ _. record {
          handles = refl;
          memory = refl;
          buffered = refl;
          open_handles = refl;
          sweeping = refl;
        })

  pub charge_new_file-IsCalm : IsCalm (charge_new_file E)
  unfolding charge_new_file
  charge_new_file-IsCalm =
      if_IsCalm (E.quota.max_files == 0) (pure tt) _ refl_handles
        (bind-IsCalm (know_count E) (λ _. take_file E) know_count-IsCalm (λ _. take_file-IsCalm))
