-- ===== src/Diag/Barrier.antt =====
-- shared/diagnostics/src/worker.rs: what reaches the sinks, and what exports are told.
use moq_cast_desktop.Base.{
  ◌≡◌, refl, sym, ap, ◌∙◌, Bool, true, all, List, [], ◌∷◌, ◌++◌, Option, some, is_some, arith,
}
use mathlib.Core.List.{append-nil, append_assoc}
use moq_cast_desktop.Diag.Worker.{
  Worker, Line, line, export, shutdown, Thread, waiting, handling, writing, ended, IoError,
  SinkAnswers, reserve, send_detail, give_back, count_drop, release, count_detail, write_line, send,
  receive, handle_line, handle, Step, reserves, gives_back, counts_drop, releases, counts_detail,
  asks_export, asks_shutdown, receives, sends_detail, writes_line, handles, step, run,
  export_result,
}

-- What is answered from one state to another is an error, for a failure that stays.
abbrev pub OnlyErrors : Worker → Worker → Type 0
OnlyErrors w w' =
    (new : List (Option IoError)) × (w'.answers ≡ w.answers ++ new) × (all is_some new ≡ true)

no_answer : (w w' : Worker) → w'.answers ≡ w.answers → OnlyErrors w w'
no_answer w w' e = ([], e ∙ sym (append-nil w.answers), refl)

export_result-is_some :
    (w : Worker) (a : SinkAnswers) → is_some w.failure ≡ true → is_some (export_result w a) ≡ true
unfolding export_result
export_result-is_some w a f = ground arith

step-failure :
    (w : Worker) (s : Step) → is_some w.failure ≡ true → is_some (step w s).failure ≡ true
unfolding step reserve give_back count_drop count_detail send receive release send_detail write_line
    handle handle_line
step-failure w s f = ground arith

step-answers : (w : Worker) (s : Step) → is_some w.failure ≡ true → OnlyErrors w (step w s)
unfolding step reserve give_back count_drop count_detail send receive release send_detail write_line
    handle handle_line
step-answers w reserves f = no_answer w (reserve w) (ground arith)
step-answers w gives_back f = no_answer w (give_back w) (ground arith)
step-answers w counts_drop f = no_answer w (count_drop w) (ground arith)
step-answers w counts_detail f = no_answer w (count_detail w) (ground arith)
step-answers w asks_export f = no_answer w (send w export) (ground arith)
step-answers w asks_shutdown f = no_answer w (send w shutdown) (ground arith)
step-answers w receives f = no_answer w (receive w) (ground arith)
step-answers w releases f = no_answer w (release w) (ground arith)
step-answers w (sends_detail bytes) f = no_answer w (send_detail w bytes) (ground arith)
step-answers w (writes_line bytes) f = no_answer w (write_line w bytes) (ground arith)
step-answers w (handles a) f = go w.thread
  where
    go : (t : Thread) → OnlyErrors w (handle (record w { thread = t }) a)
    go waiting = ([], sym (append-nil w.answers), refl)
    go ended = ([], sym (append-nil w.answers), refl)
    go (handling (line l)) = ([], sym (append-nil w.answers), refl)
    go (writing l) = ([], sym (append-nil w.answers), refl)
    go (handling export) =
        (export_result w a ∷ [], refl, ground (arith, export_result-is_some w a f))
    go (handling shutdown) = ([], sym (append-nil w.answers), refl)

run-answers :
    (w : Worker) (steps : List Step) → is_some w.failure ≡ true → OnlyErrors w (run w steps)
unfolding run
run-answers w [] f = no_answer w w refl
run-answers w (s ∷ steps) f =
    let (new, e, h) = step-answers w s f in
    let (new', e', h') = run-answers (step w s) steps (step-failure w s f) in
    (
      new ++ new',
      e' ∙ ap (λ xs. xs ++ new') e ∙ append_assoc w.answers new new',
      all-append is_some new new' h h',
    )
  where
    all-append :
        (p : Option IoError → Bool) (xs ys : List (Option IoError))
        → all p xs ≡ true
        → all p ys ≡ true
        → all p (xs ++ ys) ≡ true
    all-append p [] ys h k = k
    all-append p (x ∷ xs) ys h k = ground (arith, all-append p xs ys)

-- Once a line could not be written, every export that is answered from then on is answered with an
-- error, whatever happens later and however many lines are written again.
pub failed_write :
    (w : Worker) (l : Line) (error : IoError) (a : SinkAnswers) (steps : List Step)
    → w.thread ≡ writing l
    → a.write ≡ some error
    → (new : List (Option IoError)) × ((run (handle w a) steps).answers ≡ w.answers ++ new)
      × (all is_some new ≡ true)
unfolding handle handle_line
failed_write w l error a steps t e =
    let fails : is_some (handle w a).failure ≡ true = ground arith in
    let same : (handle w a).answers ≡ w.answers = ground arith in
    let (new, eq, h) = run-answers (handle w a) steps fails in
    (new, eq ∙ ap (λ xs. xs ++ new) same, h)
