-- ===== src/Hdl/Settings.antt =====
-- RULES/hdl/simulator.go, hdl.go, questa.go and xsim.go: the flags of the package, as they are
-- declared, and their values.
use dbt_rules.Base.{String, Bool, false, some, List, [], ◌∷◌}
use dbt_rules.Core.Flags.{Flag, string_body, bool_body}

-- What `Value()` gives for each flag.
pub record Settings : Type 0 where
  pub simulator : String
  pub simulator_lib_dir : String
  pub simulator_lib_search : String
  pub dump_vcd : Bool
  pub board_name : String
  pub part_name : String
  pub implementation : String
  pub implementation_step : String
  pub implementation_gui : Bool
  pub vlog_flags : String
  pub vcom_flags : String
  pub vopt_flags : String
  pub vsim_flags : String
  pub lint : Bool
  pub designfile : Bool
  pub access : String
  pub coverage : Bool
  pub dump_qwavedb : Bool
  pub dump_qwavedb_scope : String
  pub xsim_dump_wdb : Bool
  pub xelab_flags : String
  pub xelab_debug : String
  pub xsim_flags : String

module _ {F : Type 0} where
  string_flag : String → String → List String → String → Flag F
  string_flag name description allowed default = record {
    name = name;
    description = description;
    body = string_body allowed (some default) "";
    is_initialized = false;
  }

  bool_flag : String → String → Flag F
  bool_flag name description = record {
    name = name;
    description = description;
    body = bool_body (some false) false;
    is_initialized = false;
  }

  -- simulator.go
  unfoldable pub simulator_flags : List (Flag F)
  unfolding string_flag bool_flag
  simulator_flags =
      string_flag "hdl-simulator" "Select HDL simulator" ("xsim" ∷ "questa" ∷ []) "questa"
      ∷ string_flag "hdl-simulator-lib-dir" "Path to the HDL simulator libraries" []
          "../../DEPS/simlibs"
      ∷ string_flag "hdl-simulator-lib-search" "Default HDL simulator libraries to search" []
          "xil_defaultlib"
      ∷ bool_flag "hdl-find-testcases" "Enable parsing of HDL files to discover testcases"
      ∷ bool_flag "hdl-show-testcases-file" "Enable output of the file where testcases were found"
      ∷ bool_flag "hdl-dump-vcd" "Enable output of signals to a VCD file"
      ∷ []

  -- hdl.go
  unfoldable pub implementation_flags : List (Flag F)
  unfolding string_flag bool_flag
  implementation_flags =
      string_flag "board" "" [] ""
      ∷ string_flag "part" "" [] "xczu3eg-sbva484-1-e"
      ∷ string_flag "hdl-implementation" "Select HDL implementation tool"
          ("vivado" ∷ "quartus" ∷ []) "vivado"
      ∷ string_flag "hdl-implementation-step" "Select HDL last implementation step"
          ("project" ∷ "synthesis" ∷ "placement" ∷ "routing" ∷ "bitstream" ∷ []) "bitstream"
      ∷ bool_flag "hdl-implementation-gui" "Run implementation in a GUI"
      ∷ []

  -- questa.go
  unfoldable pub questa_flags : List (Flag F)
  unfolding string_flag bool_flag
  questa_flags =
      string_flag "questa-vlog-flags" "Extra flags for the vlog command" [] "-svinputport=net"
      ∷ string_flag "questa-vcom-flags" "Extra flags for the vcom command" [] ""
      ∷ string_flag "questa-vopt-flags" "Extra flags for the vopt command" [] "-fsmverbose"
      ∷ string_flag "questa-vsim-flags" "Extra flags for the vsim command" [] ""
      ∷ bool_flag "questa-lint" "Enable additional lint information during compilation"
      ∷ bool_flag "questa-designfile"
          "Enable the creation of a binary designfile database for use with the visualizer"
      ∷ string_flag "questa-access" "Control access to simulation objects for debugging purposes" []
          "acc"
      ∷ bool_flag "questa-coverage" "Enable code-coverage database generation"
      ∷ bool_flag "questa-dump-qwavedb" "Enable waveform dumping to qwavedb file"
      ∷ string_flag "questa-dump-qwavedb-scope" "Control the scope of data dumped to qwavedb file"
          ("all" ∷ "signals" ∷ "assertions" ∷ "memory" ∷ "queues" ∷ []) "all"
      ∷ []

  -- xsim.go
  unfoldable pub xsim_flags_declared : List (Flag F)
  unfolding string_flag bool_flag
  xsim_flags_declared =
      bool_flag "xsim-dump-wdb" "Enable output of signals to a WDB file"
      ∷ string_flag "xsim-xelab-flags" "Extra flags for the xelab command" [] ""
      ∷ string_flag "xsim-xelab-debug" "Extra debug flags for the xelab command"
          ("line" ∷ "wave" ∷ "drivers" ∷ "readers" ∷ "xlibs" ∷ "all" ∷ "typical" ∷ "subprogram"
            ∷ "off" ∷ [])
          "typical"
      ∷ string_flag "xsim-xsim-flags" "Extra flags for the xsim command" [] ""
      ∷ []
