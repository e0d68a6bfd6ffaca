-- ===== src/Web/Devices.antt =====
-- internal/web/token_handler.go and device_api.go: a device that may act must be active.
use omni_identity.Prelude.{String, Option, none, some, if◌then◌else◌}
use omni_identity.Model.{Device, is_active}
use omni_identity.Store.Io.{Db, Result, ok, err}
use omni_identity.Store.Devices.{get_device_row}
use omni_identity.Web.Server.{Env}

abbrev pub if_active : Result Device → Option Device
if_active (err e) = none
if_active (ok d) = if is_active d then some d else none

-- dev, err := GetDevice(id); err != nil || !dev.IsActive().
unfoldable pub active_device : Env → String → Db → Option Device
active_device env id db = if_active (get_device_row env.io id db)
