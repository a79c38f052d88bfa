-- ===== src/Children/Last.antt =====
-- What the death of a child does to the table of children and to its parent.
use macac_os.Base.{
  ℕ, zero, suc, ◌<◌, ◌≡◌, ◌≢◌, refl, sym, ap, ◌∙◌, Option, none, some, List, [], ◌∷◌, returns, ◌==◌,
  if◌then◌else◌, if-true, if-false, arith, Bool-cases, inl, inr, get_elem?, set, get_elem?-set_self,
  get_elem?-set_ne, lt_of_get_elem?, eq_of_==, ne_of_==,
}
use macac_os.Scheduler.{Process, ready, dead, get_process_idx, max_processes, change_process_state}
use macac_os.Scheduler.Choose.{found_slot, change_process_state-found}
use macac_os.Children.{ChildInfo, Family, delete_children, set_dead_process}
use macac_os.Children.Wake.{running, parent_of, Marked, set_dead_process-branch}
use macac_os.Kernel.Lift.{on_scheduler-returns}

-- An entry that is not in use.
abbrev pub no_child : ChildInfo
no_child = record { parent_pid = 0; child_pid = 0; state = dead }

delete_children-elem :
    (father j : ℕ) (c : ChildInfo) (cs : List ChildInfo)
    → get_elem? cs j ≡ some c
    → get_elem? (delete_children father cs) j
      ≡ some (if c.parent_pid == father then no_child else c)
unfolding delete_children
delete_children-elem father j c [] e = absurd (ground arith)
delete_children-elem father zero c (x ∷ cs) e =
    ap
      (λ (o : Option ChildInfo). elim o [
        | none ↦ none
        | some y ↦ some (if y.parent_pid == father then no_child else y)
      ])
      e
delete_children-elem father (suc j) c (x ∷ cs) e = delete_children-elem father j c cs e

-- Entry `j` of the children, when all entries of the parent are deleted behind the death of one.
cleared :
    (pid father j : ℕ) (c : ChildInfo) (cs ds : List ChildInfo)
    → Marked pid father cs ds
    → get_elem? cs j ≡ some c
    → get_elem? (delete_children father ds) j
      ≡ some (if c.parent_pid == father then no_child else c)
cleared pid father j c cs ds m e = elim (Bool-cases (m.index == j)) [
  | inl same ↦
      let is : m.index ≡ j = eq_of_== m.index j same in
      let died : ChildInfo = record (m.entry) { state = dead } in
      let here : get_elem? ds j ≡ some died =
        ap (λ xs. get_elem? xs j) m.is_dead
        ∙ ap (λ k. get_elem? (set cs m.index died) k) (sym is)
        ∙ get_elem?-set_self cs m.index died (lt_of_get_elem? cs m.index m.entry m.at) in
      let entry : some m.entry ≡ some c = sym m.at ∙ ap (get_elem? cs) is ∙ e in
      let his : c.parent_pid ≡ father =
        ap (λ (o : Option ChildInfo). elim o [ none ↦ father | some x ↦ x.parent_pid ]) (sym entry)
        ∙ m.of_father in
      delete_children-elem father j died ds here
      ∙ ap some (
          if-true (m.entry.parent_pid == father) _ _ (ground (arith, m.of_father))
          ∙ sym (if-true (c.parent_pid == father) _ _ (ground arith)))
  | inr other ↦ delete_children-elem father j c ds (
      ap (λ xs. get_elem? xs j) m.is_dead
      ∙ get_elem?-set_ne cs m.index j _ (ne_of_== m.index j other)
      ∙ e)
]

-- What the death of a child leaves behind.
pub record Died (pid father : ℕ) (f f' : Family) : Type 0 where
  pub dead_children : List ChildInfo
  pub marked : Marked pid father f.children dead_children
  -- The last running child: the parent is ready, and its entries are not in use.
  pub last :
      running father f.children ≡ 1
      → ((q : Process) × (get_elem? f.scheduler.process_list (get_process_idx father f.scheduler)
            ≡ some q)
          × (q.pid ≡ father)
          × (f'.scheduler ≡ record (f.scheduler) {
            process_list =
                set f.scheduler.process_list
                  (get_process_idx father f.scheduler)
                  (record q { state = ready });
          }))
        × ((j : ℕ) (c : ChildInfo)
            → get_elem? f.children j ≡ some c
            → get_elem? f'.children j ≡ some (if c.parent_pid == father then no_child else c))
  -- Other children run on.
  pub not_last :
      running father f.children ≢ 1 → (f'.scheduler ≡ f.scheduler) × (f'.children ≡ dead_children)

-- Where the parent of the first running entry of a process lives, set_dead_process always returns.
-- If that was the only running child of the parent, the parent becomes ready, no other slot of the
-- process table changes, and all entries of the parent, and no others, become unused; otherwise the
-- process table does not change, and in the table of children only one running entry of the process
-- under that parent becomes dead.
pub set_dead_process-last :
    (pid father : ℕ) (f : Family)
    → parent_of pid f.children ≡ some father
    → get_process_idx father f.scheduler < max_processes
    → (f' : Family) × (set_dead_process pid f ≡ returns tt f') × Died pid father f f'
set_dead_process-last pid father f e lives =
    let (ds, less, m, done) = set_dead_process-branch pid father f e in
    let (q, here, same, alive) = found_slot father f.scheduler lives in
    elim (Bool-cases (running father f.children == 1)) [
      | inl one ↦
          let g : Family = record f { children = delete_children father ds } in
          (
            _,
            done
                ∙ if-true (running father f.children == 1) _ _ one
                ∙ on_scheduler-returns (change_process_state father ready) g tt _
                    (change_process_state-found father ready f.scheduler q here),
            record {
              dead_children = ds;
              marked = m;
              last =
                  λ _. ((q, here, same, refl), λ j c at. cleared pid father j c f.children ds m at);
              not_last = λ ne. absurd (ne (eq_of_== _ 1 one));
            },
          )
      | inr more ↦ (
        record f { children = ds },
        done ∙ if-false (running father f.children == 1) _ _ more,
        record {
          dead_children = ds;
          marked = m;
          last = λ is. absurd (ne_of_== _ 1 more is);
          not_last = λ _. (refl, refl);
        },
      )
    ]
