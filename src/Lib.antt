-- ===== src/Lib.antt =====
-- The program is an exporter of metrics of a QNAP NAS to Prometheus that also posts the NAS's
-- notifications and Docker's events to Grafana as annotations. A web server, main.go, answers
-- scrapes, which run the collectors of lib/exporter/prometheus side by side and print what they
-- send, and notifications, which it hands to the annotator of lib/notifications. A notification
-- that ends what an earlier one started closes that annotation, so that the two form a region. A
-- loop, docker_events.go, hands Docker's events to an annotator without regions.
--
-- Base holds what the modules share: ℤ and list functions over the native numbers, texts as lists
-- of byte values, and the functions of Go's strings and strconv that the source uses
-- (Base/Strings). Base/Ending tells how a piece of code can end: returned, panicked, or, for a
-- loop on fuel, cut short. Regex is what the source uses of package regexp: literals, classes,
-- greedy repetition of one piece, one group, and the start of a line; replacement goes from left
-- to right.
--
-- Notifications, for lib/notifications. RegionMatcher is regionmatcher.go: the matcher is a
-- record of the cache size and the entries, oldest first; `add` and `match_region` are Add and
-- Match, and a pointer receiver's changes are the matcher returned. TagExtractor is
-- tagextractor/. Annotator is annotator.go: `post` is Post, split where the source's tests stand,
-- and `merge_tags` is mergeTags. Annotator/Overlaps cuts Post where it waits for the server, so
-- that calls can overlap. The overlapping calls run Match and Add each as a whole, an assumption,
-- since the source locks nothing. The HTTP client, the check of URLs and the decoding of JSON are
-- the parameter `Backend`.
--
-- Exporter, for lib/exporter and lib/utils. World is utils.go over the commands and files of the
-- machine, a parameter. Errors are Go's errors as far as the source tells them apart, and `Fetch`
-- the three ways in which a collector ends. Metric and Write are the printing of metrics and the
-- part of WriteMetrics, prometheus.go, that receives what the workers send; a run is one order of
-- messages, since the channel fixes none. Write/Lines splits the output into lines again, Labels
-- reads printed labels back, and Shapes is about the types of metrics. Environment has the parts
-- of readEnvironment, and the expiry that WriteMetrics tests; Environment/Read composes them over
-- the exporter's fields and the status. Disk is disk.go, System is system.go and the counters of
-- network.go, Nvme is nvme.go, and Machine is cpu_linux.go, cpu_others.go, memory_linux.go,
-- memory_others.go and the ping of network.go. Ups is ups.go, with the daemon as the parameter
-- `Daemon`, one for each call and its retry. Volume is volinfo.go. A reading of the environment
-- that panics leaves the fields as they are by then (`crashed`). Scrape is a whole scrape:
-- `write_metrics` runs the prologue and all 17 collectors on one exporter state, where
-- `Surroundings` is what they meet. Floating-point numbers are a type with the operations that
-- the source uses, the parameter `FloatOps`; nothing is assumed of them. The escapes of `%q` are
-- those for bytes below 128: bytes from 128 on stay as they are, which is what Go does with
-- printable UTF-8 and not with other bytes. Metric/Quote/Prometheus reads label values with the
-- escapes that Prometheus knows.
--
-- Server, for main.go, docker_events.go and lib/status. Healthcheck is handleHealthcheck with its
-- global expiry passed along, Handlers the three handlers, with the response of net/http as its
-- status and body. Docker is the loop over Docker's events, a step for each arrival at one of its
-- `select`s. Status is what the status page shows, Status/Html the page that the template makes
-- of it, with the escaping of html/template in Status/Escape. App is the program: its state, what
-- `run` sets up from the flags, and a step for each request and each of Docker's events, in any
-- order. Process is the process around it: the parsing of the flags, the log file, the signal,
-- the shutting down and the exit.
--
-- Times are nanoseconds in ℕ, 0 being Go's zero time. Loops that the source bounds by their data
-- are structural. The loop of Extract has one round more than the text has bytes, since each
-- round takes at least three of them off; that this is enough is proved. The loop over the
-- volumes has no bound in the source: it runs on fuel that is an argument of the theorems. Digits
-- are printed on fuel that is the number itself. The volume index wraps at 64 bits.
--
-- Not modelled: the escapes of `%q` for bytes from 128 on that are not printable UTF-8, the port,
-- the usage text, the network itself, and the time that shutting down takes. Locks are left out,
-- since one scrape runs at a time, and so is what is logged. Requests are handled one after the
-- other, where the server may mix them, but for the calls of Post, and in these Match and Add are
-- not mixed. Numbers are those of a machine of 64 bits. The code that is vendored or generated,
-- the dashboards and the packaging hold none of the program's own logic.
pub mod Base
pub mod Regex
pub mod Notifications
pub mod Exporter
pub mod Server
