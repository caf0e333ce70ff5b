-- ===== src/Transfer/Schedule.antt =====
-- What src/common/commands/put.cpp and get.cpp do in the job of the packet, and the contract of the
-- commands that transfer files.
use gazon.Base.{◌≡◌, refl, ap, ◌∙◌, Bool, true, false, List, Option, none, some, Text, codes}
use gazon.Errors.{Result, ok, throw}
use gazon.Command.{
  Command, CommandArg, get_path, cd, date, exit, get, grep, login, logout, ls, mkdir, pass, ping,
  put, rm, w, whoami,
}
use gazon.Session.Run.{Session, Exec, ◌>>=◌, ◌>>◌, pure, lift, continue}
use gazon.Session.Commands.{FileCommands, KeepsSession}
use gazon.Transfer.{Peer, enforce, check_pool, schedule_on, schedule_put, schedule_get}

-- The code leaves the session as it was.
abbrev Silent : {A : Type 0} → Exec A → Type 0
Silent m = (s : Session) → (m s).1 ≡ s

then-Silent :
    {A B : Type 0} (m : Exec A) (k : A → Exec B)
    → Silent m
    → ((a : A) → Silent (k a))
    → Silent (m >>= k)
then-Silent {A = A} m k hm hk s = go (m s).0 (m s).1 (hm s)
  where
    go : (r : Result A) (s' : Session) → s' ≡ s → (continue r k s').1 ≡ s
    go (ok a) s' e = hk a s' ∙ e
    go (throw x) s' e = e

check_pool-Silent : (b : Bool) (message : Text) → Silent (check_pool b message)
check_pool-Silent true message s = refl
check_pool-Silent false message s = refl

enforce-Silent : (o : Option Text) → Silent (enforce o)
enforce-Silent none s = refl
enforce-Silent (some message) s = refl

schedule_on-Silent :
    (message : Text) (p : Peer) (args : List CommandArg) (b : Bool)
    → Silent (schedule_on message p args b)
schedule_on-Silent message p args b =
    then-Silent {B = Text} (check_pool b message) _ (check_pool-Silent b message) (λ _.
      then-Silent {B = Text} (enforce p.setup_error) _ (enforce-Silent p.setup_error)
        (λ _. then-Silent {B = Text} (lift (get_path args)) _ (λ s. refl) (λ path s. refl)))

schedule_put-Silent : (p : Peer) (args : List CommandArg) → Silent (schedule_put p args)
unfolding schedule_put
schedule_put-Silent p args s =
    schedule_on-Silent (codes "cannot schedule a file upload.") p args s.context.has_fpool s

schedule_get-Silent : (p : Peer) (args : List CommandArg) → Silent (schedule_get p args)
unfolding schedule_get
schedule_get-Silent p args s =
    schedule_on-Silent (codes "cannot schedule a file download.") p args s.context.has_fpool s

Silent-KeepsSession : (s t : Session) → t ≡ s → KeepsSession s t
Silent-KeepsSession s t e = record {
  context = ap (λ (x : Session). x.context) e;
  logged = ap (λ (x : Session). x.world.logged) e;
  config = ap (λ (x : Session). x.world.config) e;
}

-- the key of the job is what the thread pool takes
abbrev pub only_schedule : Exec Text → Exec (Unit {0})
only_schedule m = do m; pure tt

-- `get` and `put` are what they schedule; the other two are those of `fc`
abbrev pub run_transfer : Peer → FileCommands → Command → List CommandArg → Exec (Unit {0})
run_transfer p fc get args = only_schedule (schedule_get p args)
run_transfer p fc put args = only_schedule (schedule_put p args)
run_transfer p fc cmd args = fc.run cmd args

scheduled-KeepsSession :
    (m : Exec Text) → Silent m → (s : Session) → KeepsSession s (only_schedule m s).1
scheduled-KeepsSession m h s =
    Silent-KeepsSession s (only_schedule m s).1 (then-Silent m (λ _. pure tt) h (λ key s. refl) s)

pub run_transfer-KeepsSession :
    (p : Peer) (fc : FileCommands) (c : Command) (args : List CommandArg) (s : Session)
    → KeepsSession s (run_transfer p fc c args s).1
run_transfer-KeepsSession p fc get args s =
    scheduled-KeepsSession (schedule_get p args) (schedule_get-Silent p args) s
run_transfer-KeepsSession p fc put args s =
    scheduled-KeepsSession (schedule_put p args) (schedule_put-Silent p args) s
run_transfer-KeepsSession p fc cd args s = fc.keeps cd args s
run_transfer-KeepsSession p fc date args s = fc.keeps date args s
run_transfer-KeepsSession p fc exit args s = fc.keeps exit args s
run_transfer-KeepsSession p fc grep args s = fc.keeps grep args s
run_transfer-KeepsSession p fc login args s = fc.keeps login args s
run_transfer-KeepsSession p fc logout args s = fc.keeps logout args s
run_transfer-KeepsSession p fc ls args s = fc.keeps ls args s
run_transfer-KeepsSession p fc mkdir args s = fc.keeps mkdir args s
run_transfer-KeepsSession p fc pass args s = fc.keeps pass args s
run_transfer-KeepsSession p fc ping args s = fc.keeps ping args s
run_transfer-KeepsSession p fc rm args s = fc.keeps rm args s
run_transfer-KeepsSession p fc w args s = fc.keeps w args s
run_transfer-KeepsSession p fc whoami args s = fc.keeps whoami args s

-- The two commands fill their part of the interface of the session.
abbrev pub transfers : Peer → FileCommands → FileCommands
transfers p fc = record { run = run_transfer p fc; keeps = run_transfer-KeepsSession p fc }
