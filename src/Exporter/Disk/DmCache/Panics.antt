-- ===== src/Exporter/Disk/DmCache/Panics.antt =====
-- What of dmsetup's output makes the dm-cache collector panic.
use qnapexporter.Exporter.Metric.{Metric}
use qnapexporter.Exporter.World.{World}
