-- ===== src/Server/Docker.antt =====
-- docker_events.go: the loop that posts Docker's events. Its `select`s take what is ready, so the loop is
-- a step for each thing that can arrive. Of package moby/client there is what is asked of it and what
-- arrives on its two channels: an attribute map is a list of its pairs in the order of one iteration.
pub mod Runs
pub mod Arrivals
pub mod Paths
pub mod Attributes
use qnapexporter.Base.{
  ℕ, ◌+◌, ◌++◌, true, false, Option, none, some, List, [], ◌∷◌, has_prefix, is_empty, if◌then◌else◌,
  Text, codes, Run, out_of_fuel, panicked, returned,
}
use qnapexporter.Notifications.Annotator.{Annotator, Backend, Posting, post}

pub record Message : Type 0 where
  pub type : Text
  pub action : Text
  pub actor_id : Text
  pub attributes : List (Text × Text)
  pub time_nano : ℕ

-- The loop of `formatDockerActorAttributes`
unfoldable pub attributes_loop : Text → List (Text × Text) → Text
attributes_loop s [] = s
attributes_loop s ((k, v) ∷ attr) = elim (has_prefix k (codes "com.docker.")) [
  | true ↦ attributes_loop s attr
  | false ↦
      attributes_loop ((if is_empty s then s else s ++ codes ",") ++ (k ++ (codes "=" ++ v))) attr
]

unfoldable pub format_docker_actor_attributes : List (Text × Text) → Text
format_docker_actor_attributes attr = codes "(" ++ (attributes_loop [] attr ++ codes ")")

-- The text that is posted for a message.
unfoldable pub message_text : Message → Text
message_text m =
    m.type
    ++ (codes " "
        ++ (m.action
            ++ (codes " "
                ++ (m.actor_id ++ (codes " " ++ format_docker_actor_attributes m.attributes)))))

-- Where the loop stands: at its `select`, in the one that waits ten seconds, or behind its end.
pub data Phase : Type 0 where
  selecting waiting ended : Phase

-- `client.EventsListOptions`, with the values of each filter.
pub record EventsListOptions : Type 0 where
  pub since : Text
  pub filters : List (Text × List Text)

-- What `dockerEvents` asks for.
unfoldable pub docker_events : EventsListOptions
docker_events = record {
  since = codes "1h";
  filters =
      (
        codes "event",
        -- containers
        codes "health_status"
            ∷ codes "kill"
            ∷ codes "restart"
            ∷ codes "start"
            ∷ codes "stop"
            ∷ codes "update"
            -- images
            ∷ codes "delete"
            ∷ codes "import"
            ∷ codes "load"
            ∷ codes "prune"
            -- plugins
            ∷ codes "install"
            ∷ codes "remove"
            -- volumes
            ∷ codes "create"
            ∷ codes "destroy"
            ∷ [],
      )
      ∷ [];
}

pub record Loop : Type 0 where
  pub phase : Phase
  -- `exporterStatus.Docker`
  pub docker : Text
  pub annotator : Annotator
  -- what the calls of `dockerEvents` asked for, the last first
  pub streams : List EventsListOptions

-- What can arrive. The channel of errors is closed behind an error, and then gives nil.
pub data Arrival : Type 0 where
  error : Option Text → Arrival
  message : Message → Arrival
  ten_seconds cancelled : Arrival

-- The loop's first state, behind the first call of `dockerEvents`.
unfoldable pub start_loop : Annotator → Loop
start_loop annotator = record {
  phase = selecting;
  docker = codes "Waiting for events";
  annotator = annotator;
  streams = docker_events ∷ [];
}

-- `handleDockerEvents` up to the loop: the error of `client.New`, where there is one, ends it.
unfoldable pub connect : Annotator → Option Text → Loop
unfolding start_loop
connect annotator none = start_loop annotator
connect annotator (some e) = record {
  phase = ended;
  docker = e;
  annotator = annotator;
  streams = [];
}

-- One step, with what was posted. Where the phase takes no such arrival nothing happens.
unfoldable pub step : Backend → Loop → Arrival → Run (Loop × Option Posting)
step b l arrival = elim l.phase [
  | ended ↦ returned (l, none)
  | waiting ↦ elim arrival [
    | ten_seconds ↦ returned (
      record l {
        phase = selecting;
        docker = codes "Waiting for events";
        streams = docker_events ∷ l.streams;
      },
      none,
    )
    | cancelled ↦ returned (record l { phase = selecting }, none)
    | error _ ↦ returned (l, none)
    | message _ ↦ returned (l, none)
  ]
  | selecting ↦ elim arrival [
    | error e ↦ elim e [
      | none ↦ returned (l, none)
      | some text ↦ returned (record l { phase = waiting; docker = text }, none)
    ]
    | message m ↦ elim (post b l.annotator (message_text m) m.time_nano) [
      | out_of_fuel ↦ out_of_fuel
      | panicked ↦ panicked
      | returned p ↦
          returned (record l { docker = message_text m; annotator = p.annotator }, some p)
    ]
    | ten_seconds ↦ returned (l, none)
    | cancelled ↦ returned (record l { phase = ended; docker = codes "Done" }, none)
  ]
]
