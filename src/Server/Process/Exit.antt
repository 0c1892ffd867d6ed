-- ===== src/Server/Process/Exit.antt =====
-- How the process ends.
use qnapexporter.Base.{ℕ, Text, ◌⊎◌, ◌≡◌}
use qnapexporter.Exporter.Errors.{Error}
use qnapexporter.Exporter.Metric.{FloatOps}
use qnapexporter.Exporter.Scrape.{close}
use qnapexporter.Server.App.{Flags, App, Reach}
use qnapexporter.Server.App.Serving.{is_complete, IsServing}
use qnapexporter.Server.Process.{
  Process, parsing, opening, quit, serving, interrupted, shutting_down, closed, exited, signalled,
  shuts_down, closes, exits, Lives, Trail, here, on,
}

module _ {F : Type 0} (ops : FloatOps F) (show : Error → Text) (flags : Flags) where
  -- The program's state is one that it can come to, and the status of the exit is 1 or 2.
  abbrev pub IsLife : Process F → Type 0
  IsLife parsing = Unit
  IsLife opening = Unit
  IsLife (serving app) = Reach ops show flags app
  IsLife (interrupted app) = Reach ops show flags app
  IsLife (shutting_down app) = Reach ops show flags app
  IsLife (closed app disconnected) = Reach ops show flags app
  IsLife (quit code) = (◌≡◌ {A = ℕ} code 0) ⊎ (◌≡◌ {A = ℕ} code 2)
  IsLife (exited code) = (◌≡◌ {A = ℕ} code 1) ⊎ (◌≡◌ {A = ℕ} code 2)

  -- The program's state is one that it can come to, and what `IsServing` says of it.
  abbrev pub RunsWell : App F → Type 0
  RunsWell app = (r : Reach ops show flags app) × IsServing flags (is_complete ops show flags r) app

  -- How the running program is, and the status of the exit.
  pub IsLived : Process F → Type 0
  IsLived parsing = Unit
  IsLived opening = Unit
  IsLived (serving app) = RunsWell app
  IsLived (interrupted app) = RunsWell app
  IsLived (shutting_down app) = RunsWell app
  IsLived (closed app disconnected) = RunsWell app
  IsLived (quit code) = (◌≡◌ {A = ℕ} code 0) ⊎ (◌≡◌ {A = ℕ} code 2)
  IsLived (exited code) = (◌≡◌ {A = ℕ} code 1) ⊎ (◌≡◌ {A = ℕ} code 2)

  -- From any state of the process that requests and events can lead to, a signal leads to its end without anything
  -- else having to happen, by way of the exporter's `Close`.
  pub serving-exits :
      (app : App F)
      → Lives ops show flags (serving app)
      → Trail ops show flags (serving app) (closed app (close app.exporter))
        × Trail ops show flags (closed app (close app.exporter)) (exited 1)
  serving-exits app life = (
    on (signalled app) (on (shuts_down app) (on (closes app) (here _))),
    on (exits app _) (here _),
  )
