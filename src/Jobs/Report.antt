-- ===== src/Jobs/Report.antt =====
-- What is printed of jobs: `print_job`, `csh_jobs_announce`, `csh_jobs_notify` and the builtin `jobs`.
use cshell.Prelude.{
  ℕ, ◌-◌, Bool, true, false, not, ◌&&◌, Option, none, some, List, [], ◌∷◌, ◌++◌, ◌==◌,
  if◌then◌else◌,
}
use cshell.Prelude.Bytes.{Bytes, bytes_eq, codes}
use cshell.Prelude.Int.{pos}
use cshell.Prelude.Stream.{Stream, write}
use cshell.Arith.Literal.{print_long}
use cshell.Jobs.{signaled, Process, Job, Jobs, complete, job_stopped, job_status, chosen_status}
use cshell.Jobs.Current.{marker, find_job, last_pid}
use cshell.Jobs.Signals.{Host, signal_name}

-- An unsigned number in decimal.
unfoldable pub decimal : ℕ → Bytes
decimal n = print_long (pos n)

-- The name behind SIG; each signal that stops a process has one.
unfoldable pub named : Host → ℕ → Bytes
named host n = elim (signal_name host n) [ some name ↦ name | none ↦ [] ]

unfoldable pub terminated : Host → ℕ → Bytes
terminated host n = elim (signal_name host n) [
  | some name ↦ codes "Terminated (SIG" ++ (name ++ codes ")")
  | none ↦ codes "Terminated (" ++ (host.strsignal n ++ codes ")")
]

unfoldable pub done_text : ℕ → Bytes
done_text status =
    if status == 0 then codes "Done" else codes "Done(" ++ (decimal status ++ codes ")")

unfoldable pub ended_text : Host → Job → Bytes
ended_text host j = elim (chosen_status j) [
  | signaled n ↦ terminated host n
  | _ ↦ done_text (job_status j)
]

-- `state` of `print_job`.
unfoldable pub state_text : Host → Job → Bytes
state_text host j =
    let n = job_status j - 128 in
    if job_stopped j
    then (if n == host.sig (codes "TSTP")
        then codes "Stopped"
        else codes "Stopped (SIG" ++ (named host n ++ codes ")"))
    else if complete j
    then ended_text host j
    else codes "Running"

abbrev pub displayed_pid : Job → ℕ
displayed_pid j = if j.grouped then j.pgid else last_pid j.processes

pub data Format : Type 0 where
  short long_form pid_only : Format

-- `[id] marker`.
unfoldable pub heading : Jobs → Job → Bytes
heading jobs j = codes "[" ++ (decimal j.id ++ (codes "] " ++ (marker j.id jobs ∷ codes " ")))

-- The lines of the long form behind the first, up to a write that fails.
unfoldable pub print_others : Job → List Process → Stream → Bool × Stream
print_others j [] s = (true, s)
print_others j (p ∷ ps) s =
    let (went, s') = write (decimal p.pid ++ (codes " " ++ (j.text ++ codes "\n"))) s in
    elim (p.pid == displayed_pid j) [
      | true ↦ print_others j ps s
      | false ↦ elim went [ true ↦ print_others j ps s' | false ↦ (false, s') ]
    ]

unfoldable pub print_long_form : Host → Jobs → Job → Stream → Bool × Stream
print_long_form host jobs j s =
    let first =
      heading jobs j
      ++ (decimal (displayed_pid j)
          ++ (codes " " ++ (state_text host j ++ (codes " " ++ (j.text ++ codes "\n"))))) in
    let (went, s') = write first s in
    elim went [ true ↦ print_others j j.processes s' | false ↦ (false, s') ]

-- `print_job`: false for -1.
unfoldable pub print_job : Host → Jobs → Job → Format → Stream → Bool × Stream
print_job host jobs j pid_only s = write (decimal (displayed_pid j) ++ codes "\n") s
print_job host jobs j long_form s = print_long_form host jobs j s
print_job host jobs j short s =
    write (heading jobs j ++ (state_text host j ++ (codes " " ++ (j.text ++ codes "\n")))) s

-- `csh_jobs_announce`; the outcome of the write is ignored.
unfoldable pub announce : Jobs → Job → Stream → Stream
announce jobs j s =
    if jobs.is_interactive
    then (write
        (codes "["
          ++ (decimal j.id ++ (codes "] " ++ (decimal (last_pid j.processes) ++ codes "\n"))))
        s).1
    else s

-- A job that was printed.
unfoldable pub shown : Job → Job
shown j = record j { changed = false; reported = if complete j then true else j.reported }

-- The loop of `csh_jobs_notify`, over a part of the list of `jobs`.
unfoldable pub notify_loop : Host → Jobs → List Job → Stream → List Job × Stream
notify_loop host jobs [] s = ([], s)
notify_loop host jobs (j ∷ js) s =
    let due = j.background && j.changed in
    let (went, printed) = print_job host jobs j short s in
    let s' = if due then printed else s in
    let (js', s'') = notify_loop host jobs js s' in
    ((if due && went then shown j else j) ∷ js', s'')

-- `csh_jobs_notify`.
unfoldable pub notify : Host → Jobs → Stream → Jobs × Stream
notify host jobs s =
    let (js, s') = notify_loop host jobs jobs.head s in
    if jobs.is_interactive then (record jobs { head = js }, s') else (jobs, s)

-- `diagnostic` of the builtin, on the text of standard error.
unfoldable pub complain : Bytes → Option Bytes → Bytes → Bytes
complain message operand err =
    err
    ++ (codes "cshell: jobs: "
        ++ (message ++ ((elim operand [ none ↦ [] | some o ↦ codes ": " ++ o ]) ++ codes "\n")))

-- The builtin's state: the jobs, standard output, standard error, the status.
pub record Listing : Type 0 where
  pub jobs : List Job
  pub out : Stream
  pub err_text : Bytes
  pub status : ℕ

-- The list with no operand.
unfoldable pub list_all : Host → Jobs → Format → List Job → Stream → Bytes → ℕ → Listing
list_all host jobs f [] s e rc = record { jobs = []; out = s; err_text = e; status = rc }
list_all host jobs f (j ∷ js) s e rc =
    let hidden = complete j && j.reported in
    let (went, printed) = print_job host jobs j f s in
    let s' = if hidden then s else printed in
    let failed = not hidden && not went in
    let rest =
      list_all host jobs f js s'
        (if failed then complain (codes "cannot write output") none e else e)
        (if failed then 1 else rc) in
    record rest { jobs = (if not hidden && went then shown j else j) ∷ rest.jobs }

-- The job with this id, once printed.
unfoldable pub show_in : ℕ → List Job → List Job
show_in i [] = []
show_in i (j ∷ js) = if j.id == i then shown j ∷ js else j ∷ show_in i js

abbrev pub failing_listing : Bytes → Bytes → Listing → Listing
failing_listing message operand l = record l {
  err_text = complain message (some operand) l.err_text;
  status = 1;
}

-- One operand.
unfoldable pub list_operand : Host → Jobs → Format → Bytes → Listing → Listing
list_operand host jobs f operand l =
    let present = record jobs { head = l.jobs } in
    elim (find_job (some operand) false present) [
      | none ↦ failing_listing (codes "no such job") operand l
      | some j ↦
          let (went, s) = print_job host present j f l.out in
          if went then record l { jobs = show_in j.id l.jobs; out = s } else record l {
            out = s;
            err_text = complain (codes "cannot write output") none l.err_text;
            status = 1;
          }
    ]

unfoldable pub list_operands : Host → Jobs → Format → List Bytes → Listing → Listing
list_operands host jobs f [] l = l
list_operands host jobs f (a ∷ as') l = list_operands host jobs f as' (list_operand host jobs f a l)

unfoldable pub take_dashes : List Bytes → List Bytes
take_dashes [] = []
take_dashes (a ∷ as') = if bytes_eq a (codes "--") then as' else a ∷ as'

unfoldable pub take_format : List Bytes → Format × List Bytes
take_format [] = (short, [])
take_format (a ∷ as') =
    if bytes_eq a (codes "-l")
    then (long_form, as')
    else if bytes_eq a (codes "-p")
    then (pid_only, as')
    else (short, a ∷ as')

-- The listing, by operands or all.
unfoldable pub list_jobs : Host → Jobs → Format → List Bytes → Stream → Bytes → Listing
list_jobs host jobs f [] s e = list_all host jobs f jobs.head s e 0
list_jobs host jobs f (a ∷ as') s e =
    list_operands host jobs f (a ∷ as')
      (record { jobs = jobs.head; out = s; err_text = e; status = 0 })

-- The builtin `jobs` behind its poll; `args` is argv without the name.
unfoldable pub builtin_jobs : Host → Jobs → List Bytes → Stream → Bytes → Listing
builtin_jobs host jobs args s e =
    let (f, operands) = take_format args in list_jobs host jobs f (take_dashes operands) s e
