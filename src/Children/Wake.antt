-- ===== src/Children/Wake.antt =====
-- When a parent is woken, and what the table of children says about a process.
use macac_os.Base.{
  ℕ, ◌+◌, ◌≡◌, refl, ap, Bool, true, false, ◌&&◌, ◌||◌, Option, none, some, List, [], ◌∷◌, returns,
  ◌==◌, if◌then◌else◌, arith, Bool-cases, inl, inr, suc, get_elem?, set,
}
use macac_os.Scheduler.{ready, dead, change_process_state}
use macac_os.Children.{
  ChildInfo, Family, on_scheduler, all_children_finished, delete_children, mark_dead, wake_parent,
  set_dead_process, add_child, has_children,
}

abbrev pub is_running : ℕ → ChildInfo → Bool
is_running parent c = c.state == ready && c.parent_pid == parent

-- The number of running children of a process.
abbrev pub running : ℕ → List ChildInfo → ℕ
running parent [] = 0
running parent (c ∷ cs) = (if is_running parent c then 1 else 0) + running parent cs

all_children_finished-running :
    (parent : ℕ) (cs : List ChildInfo) → all_children_finished parent cs ≡ (running parent cs == 0)
unfolding all_children_finished
all_children_finished-running parent [] = refl
all_children_finished-running parent (c ∷ cs) =
    ground (arith, all_children_finished-running parent cs)

-- The parent of the first running entry of `pid`.
abbrev pub parent_of : ℕ → List ChildInfo → Option ℕ
parent_of pid [] = none
parent_of pid (c ∷ cs) =
    if c.state == ready && c.child_pid == pid then some c.parent_pid else parent_of pid cs

marked :
    (q : ℕ) (c : ChildInfo) (father : ℕ)
    → c.parent_pid ≡ father
    → (c.state == ready) ≡ true
    → (n : ℕ) → (if is_running q c then 1 else 0) + n ≡ 0 + n + (if father == q then 1 else 0)
marked q c father is y n = ground arith

less_tests : (father n m : ℕ) → n ≡ m + (if father == father then 1 else 0) → (m == 0) ≡ (n == 1)
less_tests father n m e = ground arith

-- The entry of a running child of the parent, and the table with that entry dead.
pub record Marked (pid father : ℕ) (cs ds : List ChildInfo) : Type 0 where
  pub index : ℕ
  pub entry : ChildInfo
  pub at : get_elem? cs index ≡ some entry
  pub is_child : entry.child_pid ≡ pid
  pub was_running : entry.state ≡ ready
  pub of_father : entry.parent_pid ≡ father
  pub is_dead : ds ≡ set cs index (record entry { state = dead })

mark_dead-some :
    (pid father : ℕ) (cs : List ChildInfo)
    → parent_of pid cs ≡ some father
    → (ds : List ChildInfo) × (mark_dead pid cs ≡ some (ds, father))
      × ((q : ℕ) → running q cs ≡ running q ds + (if father == q then 1 else 0))
      × Marked pid father cs ds
unfolding mark_dead
mark_dead-some pid father [] e = absurd (ground arith)
mark_dead-some pid father (c ∷ cs) e = elim (Bool-cases (c.state == ready && c.child_pid == pid)) [
  | inl y ↦
      let is : c.parent_pid ≡ father = ground arith in
      (
        record c { state = dead } ∷ cs,
        rw y (ap (λ g. some (record c { state = dead } ∷ cs, g)) is),
        (λ q. marked q c father is (ground arith) (running q cs)),
        record {
          index = 0;
          entry = c;
          at = refl;
          is_child = ground arith;
          was_running = ground arith;
          of_father = is;
          is_dead = refl;
        },
      )
  | inr z ↦
      let (ds, done, less, m) = mark_dead-some pid father cs (ground arith) in
      (
        c ∷ ds,
        rw z (rw done),
        (λ q. omega (arith, less q)),
        record {
          index = suc m.index;
          entry = m.entry;
          at = m.at;
          is_child = m.is_child;
          was_running = m.was_running;
          of_father = m.of_father;
          is_dead = ap (λ xs. c ∷ xs) m.is_dead;
        },
      )
]

mark_dead-none : (pid : ℕ) (cs : List ChildInfo) → parent_of pid cs ≡ none → mark_dead pid cs ≡ none
unfolding mark_dead
mark_dead-none pid [] e = refl
mark_dead-none pid (c ∷ cs) e = ground (arith, mark_dead-none pid cs)

abbrev pub has_free : List ChildInfo → Bool
has_free [] = false
has_free (c ∷ cs) = c.state == dead || has_free cs

-- The branches of set_dead_process, for a child with a running entry.
pub set_dead_process-branch :
    (pid father : ℕ) (f : Family)
    → parent_of pid f.children ≡ some father
    → (ds : List ChildInfo) × ((q : ℕ)
        → running q f.children ≡ running q ds + (if father == q then 1 else 0))
      × Marked pid father f.children ds
      × (set_dead_process pid f ≡ (
          if running father f.children == 1
          then on_scheduler
              (change_process_state father ready)
              (record f { children = delete_children father ds })
          else returns tt (record f { children = ds })))
unfolding set_dead_process wake_parent
set_dead_process-branch pid father f e =
    let (ds, done, less, m) = mark_dead-some pid father f.children e in
    (
      ds,
      less,
      m,
      rw (done, set_dead_process)
          (rw (all_children_finished-running father ds) (
            rw (less_tests father (running father f.children) (running father ds) (less father))
              refl)),
    )

-- A process without a running entry dies without an effect on the table or on any parent.
pub set_dead_process-orphan :
    (pid : ℕ) (f : Family) → parent_of pid f.children ≡ none → set_dead_process pid f ≡ returns tt f
unfolding set_dead_process
set_dead_process-orphan pid f e = rw (mark_dead-none pid f.children e, set_dead_process)

-- A new child counts for its parent alone, if there is an entry that is not running to record it.
pub add_child-running :
    (parent child : ℕ) (cs : List ChildInfo) (q : ℕ)
    → running q (add_child parent child cs)
      ≡ running q cs + (if has_free cs && parent == q then 1 else 0)
unfolding add_child
add_child-running parent child [] q = omega arith
add_child-running parent child (c ∷ cs) q = ground (arith, add_child-running parent child cs q)

-- After delete_children a process has no entries left, unless it is process 0: that one has every
-- entry that was cleared or never used.
pub has_children-delete_children :
    (pid : ℕ) (cs : List ChildInfo)
    → has_children pid (delete_children pid cs) ≡ (pid == 0 && has_children pid cs)
unfolding has_children delete_children
has_children-delete_children pid [] = ground arith
has_children-delete_children pid (c ∷ cs) = ground (arith, has_children-delete_children pid cs)
