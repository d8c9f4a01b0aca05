-- ===== src/Pipe/Requests.antt =====
-- dkftpbench-0.45/ftp_client_pipe.cc: the calls by which the application asks for something.
use c10kcode.Common.{ℕ, ◌*◌, Bool, none, List, ◌==◌, if◌then◌else◌}
use c10kcode.Eclock.{clock_add, hertz}
use c10kcode.FtpProto.{Proto}
use c10kcode.FtpProto
use c10kcode.FtpProto.Requests
use c10kcode.Pipe.{Pipe, getting, Os, App, Outcome, aborted, returned, ◌>>=◌, from_proto, schedule}
use c10kcode.Pipe.Notify.{kickstart}

-- A call of the protocol and, where it succeeds, what comes next.
abbrev pub ask :
    Pipe → FtpProto.Outcome (ℕ × Proto) → (Pipe → Outcome (ℕ × Pipe)) → Outcome (ℕ × Pipe)
ask p call next = from_proto call >>= λ r.
    let q = record p { proto = r.1 } in if r.0 == 0 then next q else returned (r.0, q)

unfoldable pub login : Os → App → Pipe → List ℕ → List ℕ → Outcome (ℕ × Pipe)
login os app p username password =
    ask p (Requests.login p.proto username password) (kickstart os app)

unfoldable pub quit : Os → App → Pipe → Outcome (ℕ × Pipe)
quit os app p = ask p (FtpProto.Outcome.returned (Requests.log_out p.proto)) (kickstart os app)

unfoldable pub cd : Os → App → Pipe → List ℕ → Outcome (ℕ × Pipe)
cd os app p dir = ask p (Requests.cd p.proto dir) (kickstart os app)

unfoldable pub set_type : Os → App → Pipe → List ℕ → Outcome (ℕ × Pipe)
set_type os app p ttype = ask p (Requests.set_type p.proto ttype) (kickstart os app)

unfoldable pub get_size : Os → App → Pipe → List ℕ → Outcome (ℕ × Pipe)
get_size os app p fname = ask p (Requests.get_size p.proto fname) (kickstart os app)

unfoldable pub ls : Os → App → Pipe → List ℕ → Bool → Outcome (ℕ × Pipe)
ls os app p dirname passive =
    if passive
    then ask p (FtpProto.Outcome.returned (Requests.ls p.proto dirname none))
        (λ q. kickstart os app (record q { state = getting }))
    else aborted

-- `get`, once the protocol has taken the command.
unfoldable pub start_get : Os → App → Pipe → Outcome (ℕ × Pipe)
start_get os app p =
    schedule os (record p { state = getting; bytes_unslept = 0; wakeup = os.now })
      (clock_add os.now (5 * hertz))
    >>= kickstart os app

unfoldable pub get : Os → App → Pipe → List ℕ → Bool → Outcome (ℕ × Pipe)
get os app p fname passive =
    if passive then ask p (Requests.get p.proto fname none) (start_get os app) else aborted
