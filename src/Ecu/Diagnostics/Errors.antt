-- ===== src/Ecu/Diagnostics/Errors.antt =====
-- The messages for the bits of the diagnostic information: `kDiagnosticsErrors` of info_command.cpp.
use hsrb_drivers.Prelude.{ℕ, List, [], ◌∷◌, ◌++◌, codes}

abbrev pub diagnostics_errors : List (ℕ × List ℕ)
diagnostics_errors =
    (0, codes "SPI1 communication error")
    ∷ (1, codes "A/D converter (control system) error")
    ∷ (2, codes "A/D converter (drive system) error")
    ∷ (3, codes "A/D converter (insulation secondary side) error")
    ∷ (4, codes "12Vd0 error (rise)")
    ∷ (5, codes "12Vd0 error (fall)")
    ∷ (6, codes "12Vd0 overcurrent error")
    ∷ (7, codes "12Vd1 error (rise)")
    ∷ (8, codes "12Vd1 error (fall)")
    ∷ (9, codes "12Vd1 overcurrent error")
    ∷ (10, codes "12Vd2 error (rise)")
    ∷ (11, codes "12Vd2 error (fall)")
    ∷ (12, codes "12Vd2 overcurrent error")
    ∷ (13, codes "12Vd3 error (rise)")
    ∷ (14, codes "12Vd3 error (fall)")
    ∷ (15, codes "12Vd3 overcurrent error")
    ∷ (16, codes "5Vd1 error (rise)")
    ∷ (17, codes "5Vd1 error (fall)")
    ∷ (18, codes "5Vd1 overcurrent error")
    ∷ (19, codes "5Vd2 error (rise)")
    ∷ (20, codes "5Vd2 error (fall)")
    ∷ (21, codes "5Vd2 overcurrent error")
    ∷ (22, codes "5Vd3 error (rise)")
    ∷ (23, codes "5Vd3 error (fall)")
    ∷ (24, codes "5Vd3 overcurrent error")
    ∷ (25, codes "5Vd4 error (rise)")
    ∷ (26, codes "5Vd4 error (fall)")
    ∷ (27, codes "5Vd4 overcurrent error")
    ∷ (28, codes "5Vd5 error (rise)")
    ∷ (29, codes "5Vd5 error (fall)")
    ∷ (30, codes "5Vd5 overcurrent error")
    ∷ (31, codes "5Va error (rise)")
    ∷ (32, codes "5Va error (fall)")
    ∷ (33, codes "12Vo1 error (rise)")
    ∷ (34, codes "12Vo1 error (fall)")
    ∷ (35, codes "12Vo1 overcurrent error")
    ∷ (36, codes "12Vo2 error (rise)")
    ∷ (37, codes "12Vo2 error (fall)")
    ∷ (38, codes "12Vo2 overcurrent error")
    ∷ (39, codes "ACDC error (rise)")
    ∷ (40, codes "ACDC error (fall)")
    ∷ (41, codes "ACDC overcurrent error")
    ∷ (42, codes "ACDC current overload Level1")
    ∷ (43, codes "ACDC current overload Level2")
    ∷ (44, codes "BATT voltage error (rise: charging)")
    ∷ (45, codes "BATT voltage error (rise: discharging)")
    ∷ (46, codes "BATT voltage error (fall)")
    ∷ (47, codes "BATT discharge current error")
    ∷ (48, codes "BATT charge current error")
    ∷ (49, codes "PBM voltage error (rise)")
    ∷ (50, codes "PBM voltage error (fall)")
    ∷ (51, codes "PBM overcurrent error")
    ∷ (52, codes "PBM overcurrent error Level2")
    ∷ (53, codes "BATT short circuit error")
    ∷ (54, codes "PBM short circuit error")
    ∷ (55, codes "Pump output error")
    ∷ (56, codes "12Vd1 overcurrent error")
    ∷ (57, codes "12Vd2 overcurrent error")
    ∷ (58, codes "12Vd3 overcurrent error")
    ∷ (59, codes "12Vo1 overcurrent error")
    ∷ (60, codes "12Vo2 overcurrent error")
    ∷ (61, codes "5Vd1 overcurrent error")
    ∷ (62, codes "5Vd2 overcurrent error")
    ∷ (63, codes "5Vd3 overcurrent error")
    ∷ (64, codes "5Vd4 overcurrent error")
    ∷ (65, codes "5Vd5 overcurrent error")
    ∷ (66, codes "PBM overcurrent error")
    ∷ (67, codes "Precharge error")
    ∷ (68, codes "12Vd2 fault")
    ∷ (69, codes "12Vd3 fault")
    ∷ (70, codes "12Vo2 fault")
    ∷ (71, codes "12Vd0/Vd1/Vo1 fault")
    ∷ (80, codes "Regenerative circuit error")
    ∷ (81, codes "Regenerative circuit overload error")
    ∷ (104, codes "SPI4 communication error")
    ∷ (105, codes "I2C communication error")
    ∷ (106, codes "CPU communication error")
    ∷ (107, codes "A/D converter (control system) error")
    ∷ (108, codes "OFF process error 12Vd2 (ACDC power)")
    ∷ (109, codes "OFF process error 12Vd2 (battery)")
    ∷ (144, codes "Unable to create log file")
    ∷ (145, codes "Unable to create folder")
    ∷ (146, codes "Log recording RTC error")
    ∷ (147, codes "FAT file system error")
    ∷ (148, codes "SD card not inserted")
    ∷ (160, codes "SPI6 communication error")
    ∷ (161, codes "s1 initial error (initial)")
    ∷ (162, codes "s2 initial error (initial)")
    ∷ (163, codes "s3 initial error (initial)")
    ∷ (164, codes "Gyro Pitch stuck error")
    ∷ (165, codes "Gyro Roll stuck error")
    ∷ (166, codes "Gyro Yaw stuck error")
    ∷ (167, codes "Acceleration X stuck error")
    ∷ (168, codes "Acceleration Y stuck error")
    ∷ (169, codes "Acceleration Z stuck error")
    ∷ (170, codes "Gyro double fault")
    ∷ (171, codes "Acceleration double fault")
    ∷ (172, codes "Quaternion reset error")
    ∷ (173, codes "S1 acceleration posture error (initial)")
    ∷ (174, codes "S2 acceleration posture error (initial)")
    ∷ (175, codes "S3 acceleration posture error (initial)")
    ∷ (176, codes "Ambient temperature error")
    ∷ (177, codes "Board overheating error 1")
    ∷ (178, codes "Board overheating error 2")
    ∷ (179, codes "MCU temperature error")
    ∷ (180, codes "Temperature sensor comparison error")
    ∷ (208, codes "Battery communication error")
    ∷ (209, codes "Battery status error")
    ∷ (210, codes "Battery discharge temperature error (high temperature)")
    ∷ (211, codes "Battery discharge temperature error (low temperature)")
    ∷ (212, codes "Battery temperature comparison error")
    ∷ (213, codes "Cell charge temperature warning")
    ∷ (
      224,
      codes "Initial check voltage signal " ++ (0xE2 ∷ 0x91 ∷ 0xA0 ∷ []) ++ codes " circuit error",
    )
    ∷ (
      225,
      codes "Initial check voltage signal " ++ (0xE2 ∷ 0x91 ∷ 0xA1 ∷ []) ++ codes " circuit error",
    )
    ∷ (
      226,
      codes "Initial check voltage signal " ++ (0xE2 ∷ 0x91 ∷ 0xA2 ∷ []) ++ codes " circuit error",
    )
    ∷ (227, codes "ACDC power A/D converter error")
    ∷ (228, codes "ACDC power (PCA) communication error")
    ∷ (229, codes "Power ECU communication error")
    ∷ (230, codes "Output connector error")
    ∷ (231, codes "ACDC power operation error")
    ∷ (232, codes "PWR-003 power MOS error")
    ∷ (233, codes "DC output overvoltage")
    ∷ (234, codes "DC output voltage drop")
    ∷ (235, codes "Output overcurrent")
    ∷ (236, codes "Connection error")
    ∷ (237, codes "Current value error")
    ∷ (238, codes "Robot connection check input voltage drop")
    ∷ (239, codes "Communication error")
    ∷ []
