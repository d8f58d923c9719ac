-- ===== src/Plugin/Run.antt =====
-- What a chain runs: the plugins of the phase in the order of their priorities, up to the first
-- error; and what closing it does.
use waffynx.Plugin.{
  Phase, Context, Plugin, Chain, sort_by_priority, or_nil, new_chain, add, add_all, execute_loop,
  execute, plugin_error, close_loop,
}
use waffynx.Plugin.Order.{in_phase, sort-sort_append}
use waffynx.Common.{
  if◌then◌else◌, Bool-cases, Option-cases, keep, keep-append, lookup, lookup-insert, Text, text_beq,
  text_beq_iff, ◌≡◌, refl, sym, ap, subst, txt, ◌∙◌, ◌⊎◌, inl, inr, Bool, true, false, Option, none,
  some, List, [], ◌∷◌, ◌++◌, append-nil, append_assoc, arith,
}

module _ {World : Type 0} where
  -- Each group of the map is the sorted list of the plugins of that phase.
  abbrev pub IsGrouped : Chain World → Type 0
  IsGrouped c =
      (phase : Phase)
      → or_nil (lookup phase c.by_phase) ≡ sort_by_priority (keep (in_phase phase) c.plugins)

  or_nil-if :
      (b : Bool) (ps : List (Plugin World)) (o : Option (List (Plugin World)))
      → or_nil (if b then some ps else o) ≡ (if b then ps else or_nil o)
  unfolding or_nil
  or_nil-if true ps o = refl
  or_nil-if false ps o = refl

  new_chain-IsGrouped : IsGrouped new_chain
  unfolding new_chain or_nil sort_by_priority lookup
  new_chain-IsGrouped phase = refl

  pub add-IsGrouped : (p : Plugin World) (c : Chain World) → IsGrouped c → IsGrouped (add p c)
  unfolding add
  add-IsGrouped p c g phase =
      let group = sort_by_priority (or_nil (lookup p.phase c.by_phase) ++ p ∷ []) in
      ap or_nil (lookup-insert p.phase phase group c.by_phase)
      ∙ or_nil-if (text_beq p.phase phase) group (lookup phase c.by_phase)
      ∙ by_phase (Bool-cases (text_beq p.phase phase))
      ∙ ap sort_by_priority (sym (keep-append (in_phase phase) c.plugins (p ∷ [])))
    where
      by_phase :
          (text_beq p.phase phase ≡ true) ⊎ (text_beq p.phase phase ≡ false)
          → (if text_beq p.phase phase
              then sort_by_priority (or_nil (lookup p.phase c.by_phase) ++ p ∷ [])
              else or_nil (lookup phase c.by_phase))
            ≡ sort_by_priority (keep (in_phase phase) c.plugins ++ keep (in_phase phase) (p ∷ []))
      by_phase (inl same) =
          let e : p.phase ≡ phase = (text_beq_iff p.phase phase).0 same in
          rw same (
            ap (λ (ys : List (Plugin World)). sort_by_priority (ys ++ p ∷ []))
              (ap (λ k. or_nil (lookup k c.by_phase)) e ∙ g phase)
            ∙ sort-sort_append p (keep (in_phase phase) c.plugins))
      by_phase (inr other) = rw (other, append-nil) (g phase)

  add_all-IsGrouped :
      (ps : List (Plugin World)) (c : Chain World) → IsGrouped c → IsGrouped (add_all ps c)
  unfolding add_all
  add_all-IsGrouped [] c g = g
  add_all-IsGrouped (p ∷ ps) c g = add_all-IsGrouped ps (add p c) (add-IsGrouped p c g)

  add_all-plugins :
      (ps : List (Plugin World)) (c : Chain World) → (add_all ps c).plugins ≡ c.plugins ++ ps
  unfolding add_all add
  add_all-plugins [] c = sym (append-nil c.plugins)
  add_all-plugins (p ∷ ps) c = add_all-plugins ps (add p c) ∙ append_assoc c.plugins (p ∷ []) ps

  execute_of_IsGrouped :
      (c : Chain World) (phase : Phase) (w : World) (ctx : Context)
      → IsGrouped c
      → execute c phase w ctx
        ≡ execute_loop (sort_by_priority (keep (in_phase phase) c.plugins)) w ctx
  unfolding execute or_nil
  execute_of_IsGrouped c phase w ctx g = elim (Option-cases (lookup phase c.by_phase)) [
    | inl e ↦ rw (e, execute) (ap (λ ps. execute_loop ps w ctx) (rw e at (g phase)))
    | inr (ps, e) ↦ rw (e, execute) (ap (λ qs. execute_loop qs w ctx) (rw e at (g phase)))
  ]

  -- Plugins that run one after the other without an error, each on the world and the context that the
  -- one before it returned.
  pub data Passed : List (Plugin World) → World → Context → World → Context → Type 0 where
    nobody : (w : World) (ctx : Context) → Passed [] w ctx w ctx
    one_more :
        (p : Plugin World) (ps : List (Plugin World)) (w w' w'' : World) (ctx ctx' ctx'' : Context)
        → p.execute w ctx ≡ (w', ctx', none)
        → Passed ps w' ctx' w'' ctx''
        → Passed (p ∷ ps) w ctx w'' ctx''

  -- A run: either every plugin passes, or those before some plugin pass and it fails, which is the
  -- end, with its name in the error.
  pub data Ran (ps : List (Plugin World)) (w : World) (ctx : Context)
      (res : World × Context × Option Text) : Type 0 where
    all_passed : res.2 ≡ none → Passed ps w ctx res.0 res.1 → Ran ps w ctx res
    stopped_at :
        (before after : List (Plugin World)) (p : Plugin World) (w' : World) (ctx' : Context)
        (message : Text)
        → ps ≡ before ++ p ∷ after
        → Passed before w ctx w' ctx'
        → p.execute w' ctx' ≡ (res.0, res.1, some message)
        → res.2 ≡ some (txt "plugin " ++ (p.name ++ (txt " error: " ++ message)))
        → Ran ps w ctx res

  Ran-cons :
      (p : Plugin World) (ps : List (Plugin World)) (w w' : World) (ctx ctx' : Context)
      (res : World × Context × Option Text)
      → p.execute w ctx ≡ (w', ctx', none)
      → Ran ps w' ctx' res
      → Ran (p ∷ ps) w ctx res
  Ran-cons p ps w w' ctx ctx' res e (all_passed ok passed) =
      all_passed ok (one_more p ps w w' res.0 ctx ctx' res.1 e passed)
  Ran-cons p ps w w' ctx ctx' res e
        (stopped_at before after q w'' ctx'' message split passed failed text) =
      stopped_at (p ∷ before) after q w'' ctx'' message (ap (◌∷◌ p) split)
        (one_more p before w w' w'' ctx ctx' ctx'' e passed) failed text

  pub execute_loop-Ran :
      (ps : List (Plugin World)) (w : World) (ctx : Context) → Ran ps w ctx (execute_loop ps w ctx)
  unfolding execute_loop plugin_error
  execute_loop-Ran [] w ctx = all_passed refl (nobody w ctx)
  execute_loop-Ran (p ∷ ps) w ctx =
      let (w', ctx', failed) = p.execute w ctx in
      elim (Option-cases (p.execute w ctx).2) [
        | inl ok ↦
            rw (ok, execute_loop)
              (Ran-cons p ps w (p.execute w ctx).0 ctx (p.execute w ctx).1 _ (returns ok)
                (execute_loop-Ran ps (p.execute w ctx).0 (p.execute w ctx).1))
        | inr (message, bad) ↦
            rw (bad, execute_loop)
              (stopped_at [] ps p w ctx message refl (nobody w ctx) (returns bad) refl)
      ]
    where
      returns :
          {o : Option Text}
          → (p.execute w ctx).2 ≡ o
          → p.execute w ctx ≡ ((p.execute w ctx).0, (p.execute w ctx).1, o)
      returns e = ap (λ (o : Option Text). ((p.execute w ctx).0, (p.execute w ctx).1, o)) e

  execute-sorted :
      (ps : List (Plugin World)) (phase : Phase) (w : World) (ctx : Context)
      → execute (add_all ps new_chain) phase w ctx
        ≡ execute_loop (sort_by_priority (keep (in_phase phase) ps)) w ctx
  execute-sorted ps phase w ctx =
      execute_of_IsGrouped (add_all ps new_chain) phase w ctx
        (add_all-IsGrouped ps new_chain new_chain-IsGrouped)
      ∙ ap (λ qs. execute_loop (sort_by_priority (keep (in_phase phase) qs)) w ctx)
          (add_all-plugins ps new_chain ∙ none_yet)
    where
      none_yet : new_chain.plugins ++ ps ≡ ps
      none_yet = unfold new_chain in refl

  -- A chain to which the plugins `ps` were added one by one runs, at a phase, the plugins of that
  -- phase sorted by priority, each on the world and the context that the one before it returned, up
  -- to the first that fails; its error, with its name, is the result, and there is none if all pass.
  pub execute-add_all :
      (ps : List (Plugin World)) (phase : Phase) (w : World) (ctx : Context)
      → Ran
          (sort_by_priority (keep (in_phase phase) ps))
          w
          ctx
          (execute (add_all ps new_chain) phase w ctx)
  execute-add_all ps phase w ctx =
      subst (Ran (sort_by_priority (keep (in_phase phase) ps)) w ctx)
        (sym (execute-sorted ps phase w ctx))
        (execute_loop-Ran (sort_by_priority (keep (in_phase phase) ps)) w ctx)

  -- What follows a part of the loop: the other plugins if it met no error, and nothing if it did.
  abbrev pub go_on :
      List (Plugin World) → World × Context × Option Text → World × Context × Option Text
  go_on qs (w, ctx, none) = execute_loop qs w ctx
  go_on qs (w, ctx, some message) = (w, ctx, some message)

  -- The loop over two lists in a row: the second is run from where the first ended, and only if no
  -- plugin of the first failed.
  pub execute_loop-append :
      (ps qs : List (Plugin World)) (w : World) (ctx : Context)
      → execute_loop (ps ++ qs) w ctx ≡ go_on qs (execute_loop ps w ctx)
  unfolding execute_loop
  execute_loop-append [] qs w ctx = refl
  execute_loop-append (p ∷ ps) qs w ctx =
      ground (arith, execute_loop-append ps qs (p.execute w ctx).0 (p.execute w ctx).1)

  -- The world after every plugin has been closed in turn.
  unfoldable pub closed : List (Plugin World) → World → World
  closed [] w = w
  closed (p ∷ ps) w = closed ps (p.close w).0

  -- An error of one plugin does not keep the others from being closed.
  pub close_loop-closed : (ps : List (Plugin World)) (w : World) → (close_loop ps w).0 ≡ closed ps w
  unfolding close_loop closed
  close_loop-closed [] w = refl
  close_loop-closed (p ∷ ps) w = ground (arith, close_loop-closed ps (p.close w).0)
