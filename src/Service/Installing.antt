-- ===== src/Service/Installing.antt =====
-- What runs after an installation.
use dropboy.Os.{Os}
use dropboy.Service.Launchd
use dropboy.Service.Systemd
