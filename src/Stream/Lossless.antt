-- ===== src/Stream/Lossless.antt =====
-- A stream that is not told of an overflow has missed nothing.
use mathlib.Core.Option.{some-injective}
use mathlib.Core.List.{Perm}
use mathlib.Core.List.Perm
use amplio.Common.{
  ℕ, ◌≡◌, refl, sym, ◌∙◌, ap, subst, true, false, ◌||◌, String, some, List, [], ◌∷◌, ◌++◌, arith,
  length, append_assoc,
}
use amplio.Stream.Bus.{RunEvent, Subscription, Bus, register, sub_at, Op, run_op}
use amplio.Stream.Reader.{run_ops, pending, received_by, overflow_seen, owed_of, owed_at, owed_by}
use amplio.Stream.Lookup.{sub_at-last}
use amplio.Stream.Accounts.{
  sub_op, got_of, seen_of, sent_of, sub_at-run_op, balanced, same_list, conserved, received_by_cons,
  overflow_seen_cons,
}

abbrev left : ℕ → Bus → List RunEvent
left i b = pending i b.in_flight

-- The account of a subscription over any operations.
account :
    (i : ℕ) (ops : List Op) (b : Bus) (s final : Subscription)
    → sub_at i b.subs ≡ some s
    → sub_at i (run_ops ops b).subs ≡ some final
    → (overflow_seen i ops b || final.overflow) ≡ false
    → (s.overflow ≡ false)
      × Perm
          (received_by i ops b ++ (final.queue ++ left i (run_ops ops b)))
          (s.queue ++ (left i b ++ owed_by i ops b))
unfolding run_ops received_by overflow_seen owed_by
account i [] b s final at_first at_last clear =
    let same : s ≡ final = some-injective s final (sym at_first ∙ at_last) in
    (
      ap (λ u. u.overflow) same ∙ clear,
      subst (λ u. Perm (u.queue ++ left i b) (s.queue ++ (left i b ++ []))) same
          (Perm.append_left s.queue (same_list (left i b) (left i b) refl)),
    )
account i (op ∷ ops) b s final at_first at_last clear =
    let next : Subscription = sub_op i op b s in
    let b' : Bus = run_op op b in
    let at_next : sub_at i b'.subs ≡ some next = sub_at-run_op i op b s at_first in
    let seen : overflow_seen i (op ∷ ops) b ≡ (seen_of i op s || overflow_seen i ops b') =
      overflow_seen_cons i op ops b s at_first in
    let later = account i ops b' next final at_next at_last (ground (arith, seen, clear)) in
    let now = balanced i op b s (ground (arith, seen, clear, later.0)) in
    let owed : owed_at i op b ≡ owed_of i op b.depth s = rw (owed_at, at_first) refl in
    let more : List RunEvent = owed_by i ops b' in
    let out : List RunEvent = final.queue ++ left i (run_ops ops b') in
    let start : received_by i (op ∷ ops) b ++ out ≡ got_of i op s ++ (received_by i ops b' ++ out) =
      ap (λ l. l ++ out) (received_by_cons i op ops b s at_first)
      ∙ append_assoc (got_of i op s) (received_by i ops b') out in
    let middle : got_of i op s ++ (next.queue ++ (left i b' ++ more))
        ≡ s.queue ++ ((sent_of i op b s ++ left i b') ++ more) =
      sym (append_assoc (got_of i op s) next.queue (left i b' ++ more))
      ∙ ap (λ l. l ++ (left i b' ++ more)) now.1
      ∙ append_assoc s.queue (sent_of i op b s) (left i b' ++ more)
      ∙ ap (λ l. s.queue ++ l) (sym (append_assoc (sent_of i op b s) (left i b') more)) in
    let end : s.queue ++ ((left i b ++ owed_of i op b.depth s) ++ more)
        ≡ s.queue ++ (left i b ++ (owed_at i op b ++ more)) =
      ap (λ l. s.queue ++ l)
        (append_assoc (left i b) (owed_of i op b.depth s) more
          ∙ ap (λ l. left i b ++ (l ++ more)) (sym owed)) in
    (
      now.0,
      subst (λ l. Perm l (s.queue ++ (left i b ++ (owed_at i op b ++ more)))) (sym start)
          (subst (Perm (got_of i op s ++ (received_by i ops b' ++ out))) end (
            Perm.trans
              (subst (Perm (got_of i op s ++ (received_by i ops b' ++ out))) middle
                (Perm.append_left (got_of i op s) later.1))
              (Perm.append_left s.queue (Perm.append_right more (conserved i op b s at_first))))),
    )

-- For a stream registered on any bus in which no delivery is left to its place, over any steps after
-- it, of this stream, of others and of publishers, interleaved in any order: where no check of its
-- flag has told of an overflow and the flag is not set, what it has received, what waits in its
-- channel, and what publishers have still to deliver to it are together, but for their order, the
-- marker to refetch all, once it has been sent, and each event whose `Publish` found the stream
-- among its targets.
pub no_silent_loss :
    (run_id : String) (ops : List Op) (b : Bus) (i : ℕ) (final : Subscription)
    → i ≡ length b.subs
    → pending i b.in_flight ≡ []
    → sub_at i (run_ops ops (register run_id b)).subs ≡ some final
    → (overflow_seen i ops (register run_id b) || final.overflow) ≡ false
    → Perm
        (received_by i ops (register run_id b)
          ++ (final.queue ++ pending i (run_ops ops (register run_id b)).in_flight))
        (owed_by i ops (register run_id b))
unfolding register
no_silent_loss run_id ops b i final last idle at_last clear =
    let s : Subscription = record {
      run_id = run_id;
      queue = [];
      overflow = false;
      attached = true;
      primed = false;
    } in
    let whole =
      (account i ops (register run_id b) s final (rw last (sub_at-last s b.subs)) at_last
        clear).1 in
    subst
      (λ l.
        Perm
          (received_by i ops (register run_id b)
            ++ (final.queue ++ pending i (run_ops ops (register run_id b)).in_flight))
          (l ++ owed_by i ops (register run_id b)))
      idle whole
