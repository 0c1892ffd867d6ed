-- ===== src/Server/Process.antt =====
-- main.go: `run` and `serveHTTP` from the start of the process to its end, around the program's state of the
-- module App. The signal, the listener and the log file are what happens to it. A request that was
-- accepted is handled also while the server shuts down, since `serveHTTP` returns at once and the exit waits for
-- none. A panic of a collector is in no goroutine that recovers, and ends the process with the status 2.
pub mod Exit
use qnapexporter.Base.{ℕ, Bool, Option, Text, ◌≡◌}
use qnapexporter.Exporter.Errors.{Error}
use qnapexporter.Exporter.Metric.{FloatOps}
use qnapexporter.Exporter.Write.{Build}
use qnapexporter.Exporter.Scrape.{Surroundings, fatal, write_metrics, close}
use qnapexporter.Server.App.{Flags, App, new_app, Step, route, metrics}

-- `parsing` is before the flags are read, where `quit` ends the process. `opening` is before the log file is open, `shutting_down` behind `server.Shutdown`, which makes
-- `ListenAndServe` return, and `closed` behind the deferred `Close`, with whether it disconnected from the
-- UPS daemon.
pub data Process (F : Type 0) : Type 0 where
  parsing opening : Process F
  serving interrupted shutting_down : App F → Process F
  closed : App F → Bool → Process F
  quit : ℕ → Process F
  exited : ℕ → Process F

-- The state of the program, while there is one.
pub data Runs {F : Type 0} (app : App F) : Process F → Type 0 where
  is_serving : Runs app (serving app)
  is_interrupted : Runs app (interrupted app)
  is_shutting_down : Runs app (shutting_down app)
  is_closed : (disconnected : Bool) → Runs app (closed app disconnected)

-- The same stage with another state of the program.
abbrev pub with_app : {F : Type 0} → Process F → App F → Process F
with_app parsing app = parsing
with_app opening app = opening
with_app (serving _) app = serving app
with_app (interrupted _) app = interrupted app
with_app (shutting_down _) app = shutting_down app
with_app (closed _ disconnected) app = closed app disconnected
with_app (quit code) app = quit code
with_app (exited code) app = exited code

module _ {F : Type 0} (ops : FloatOps F) (show : Error → Text) (flags : Flags) where
  pub data Change : Process F → Process F → Type 0 where
    -- `flag.Parse` prints the usage because `-help` asks for it, or because of a flag it does not know
    helps : Change parsing (quit 0)
    rejects : Change parsing (quit 2)
    parses : Change parsing opening
    -- `log.Fatalf`
    log_failed : Change opening (exited 1)
    starts :
        (build : Build) (now : ℕ) (docker_error : Option Text)
        → Change opening (serving (new_app flags build now docker_error))
    handles :
        {p : Process F} {app app' : App F}
        → Runs app p
        → Step ops show app app'
        → Change p (with_app p app')
    crashes :
        {p : Process F} {app : App F} (path : Text) (s : Surroundings F) (fuel : ℕ)
        → Runs app p
        → route app path ≡ metrics
        → write_metrics ops s fuel app.exporter ≡ fatal
        → Change p (exited 2)
    signalled : (app : App F) → Change (serving app) (interrupted app)
    shuts_down : (app : App F) → Change (interrupted app) (shutting_down app)
    -- `ListenAndServe` returns an error of its own
    listen_failed : (app : App F) → Change (serving app) (shutting_down app)
    closes : (app : App F) → Change (shutting_down app) (closed app (close app.exporter))
    exits : (app : App F) (disconnected : Bool) → Change (closed app disconnected) (exited 1)

  -- What the process can come to.
  pub data Lives : Process F → Type 0 where
    begins : Lives parsing
    changes : {p p' : Process F} → Lives p → Change p p' → Lives p'

  -- A run of changes.
  pub data Trail : Process F → Process F → Type 0 where
    here : (p : Process F) → Trail p p
    on : {p q r : Process F} → Change p q → Trail q r → Trail p r
