-- ===== src/Template/Tests.antt =====
-- The theorem on templates/device/src/my_device.cpp at a concrete input.
use qdmi.Base.{refl, true, some, replicate}
use qdmi.Base.Bytes.{text}
use qdmi.Constants.DeviceProperty
use qdmi.Output.{Request}
use qdmi.Template.{Owes, query_device_property, query_device_property-Owes}

abbrev buffer : Request
buffer = record { size = 8; value = some (replicate 8 255); size_ret = true }

query_device_property-Owes_example :
    Owes
      (text "mine")
      DeviceProperty.id
      buffer
      (query_device_property (text "mine") true DeviceProperty.id buffer)
query_device_property-Owes_example =
    query_device_property-Owes (text "mine") DeviceProperty.id buffer refl
