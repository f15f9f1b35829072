-- ===== src/Smbios/Sockets.antt =====
-- The names of the processor sockets and of the states of a processor in smbios.cpp.
use dvnetos.Base.{Option, none, some, List, [], ◌∷◌, String}

-- `processorSocketsList` behind its first element, which is null.
abbrev pub processor_sockets_list : List String
processor_sockets_list =
    "Other" ∷ "Unknown" ∷ "Daughter Board" ∷ "ZIF Socket" ∷ "Replacement/Piggy Back" ∷ "None"
    ∷ "LIF Socket" ∷ "Slot 1" ∷ "Slot 2" ∷ "370 Pin Socket" ∷ "Slot A" ∷ "Slot M" ∷ "Socket 423"
    ∷ "Socket A (Socket 462)" ∷ "Socket 478" ∷ "Socket 754" ∷ "Socket 940" ∷ "Socket 939"
    ∷ "Socket mPGA604" ∷ "Socket LGA771" ∷ "Socket LGA775" ∷ "Socket S1" ∷ "Socket AM2"
    ∷ "Socket F (1207)" ∷ "Socket LGA1366" ∷ "Socket G34" ∷ "Socket AM3" ∷ "Socket C32"
    ∷ "Socket LGA1156" ∷ "Socket LGA1567" ∷ "Socket PGA988A" ∷ "Socket BGA1288" ∷ "rPGA988B"
    ∷ "BGA1023" ∷ "BGA1224" ∷ "LGA1155" ∷ "LGA1356" ∷ "LGA2011" ∷ "Socket FS1" ∷ "Socket FS2"
    ∷ "Socket FM1" ∷ "Socket FM2" ∷ "Socket LGA2011-3" ∷ "Socket LGA1356-3" ∷ "Socket LGA1150"
    ∷ "Socket BGA1168" ∷ "Socket BGA1234" ∷ "Socket BGA1364" ∷ "Socket AM4" ∷ "Socket LGA1151"
    ∷ "Socket BGA1356" ∷ "Socket BGA1440" ∷ "Socket BGA1515" ∷ "Socket LGA3647-1" ∷ "Socket SP3"
    ∷ "Socket SP3r2" ∷ "Socket LGA2066" ∷ "Socket BGA1392" ∷ "Socket BGA1510" ∷ "Socket BGA1528"
    ∷ "Socket LGA4189" ∷ "Socket LGA1200" ∷ "Socket LGA4677" ∷ "Socket LGA1700" ∷ "Socket BGA1744"
    ∷ "Socket BGA1781" ∷ "Socket BGA1211" ∷ "Socket BGA2422" ∷ "Socket LGA1211" ∷ "Socket LGA2422"
    ∷ "Socket LGA5773" ∷ "Socket BGA5773" ∷ "Socket AM5" ∷ "Socket SP5" ∷ "Socket SP6"
    ∷ "Socket BGA883" ∷ "Socket BGA1190" ∷ "Socket LGA4129" ∷ "Socket LGA4710" ∷ "Socket LGA7529"
    ∷ []

-- `cpuStatusList`
abbrev pub cpu_status_list : List (Option String)
cpu_status_list =
    some "Unknown"
    ∷ some "CPU Enabled"
    ∷ some "CPU Disabled by User"
    ∷ some "CPU Disabled By BIOS (POST Error)"
    ∷ some "CPU Is Idle"
    ∷ none
    ∷ none
    ∷ some "Other"
    ∷ []
