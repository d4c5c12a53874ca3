-- ===== src/Ai/Tools.antt =====
-- launcher/xlpod-server/src/ai/tools.rs: the registry of the tools that a model may call.
use xlpod.Common.{true, false, String, List, [], ◌∷◌, Option, find, ◌==◌, text_eq}
use xlpod.Json.{Value, Json}
use xlpod.Auth.{fs_read, excel_com, ai_exec_python}
use xlpod.Ai.Types.{ToolSpec}

module _ (json : Json) where
  typed : String → List (String × Value) → Value
  typed kind more = json.object (("type", json.string kind) ∷ more)

  string_field : String → String × Value
  string_field name = (name, typed "string" [])

  -- `builtin_tools`.
  unfoldable pub builtin_tools : List ToolSpec
  unfolding typed string_field
  builtin_tools =
      record {
        name = "fs_read";
        description =
            "Read a file under one of the token's approved fs roots. The path is canonicalized server-side; paths outside the approved set are rejected. Returns base64 content.";
        input_schema = typed "object" (
            ("required", json.array (json.string "path" ∷ []))
            ∷ (
              "properties",
              json.object (
                  (
                    "path",
                    typed "string" (
                        (
                          "description",
                          json.string
                              "Absolute or relative path; must lie under an approved fs root.",
                        )
                        ∷ []),
                  )
                  ∷ []),
            )
            ∷ []);
        xlpod_route = "GET /fs/read";
        required_scope = fs_read;
        mutates = false;
      }
      ∷ record {
        name = "excel_workbooks";
        description = "List workbooks open in the user's running Excel instance.";
        input_schema = typed "object" (("properties", json.object []) ∷ []);
        xlpod_route = "GET /excel/workbooks";
        required_scope = excel_com;
        mutates = false;
      }
      ∷ record {
        name = "excel_range_read";
        description =
            "Read a range from a workbook in the user's running Excel instance. Returns a 2-D array of cell values.";
        input_schema = typed "object" (
            (
              "required",
              json.array (json.string "workbook" ∷ json.string "sheet" ∷ json.string "range" ∷ []),
            )
            ∷ (
              "properties",
              json.object
                  (string_field "workbook" ∷ string_field "sheet" ∷ string_field "range" ∷ []),
            )
            ∷ []);
        xlpod_route = "POST /excel/range/read";
        required_scope = excel_com;
        mutates = false;
      }
      ∷ record {
        name = "run_python";
        description =
            "Execute a Python snippet inside the launcher's worker. The worker is shared across calls in this session; setting `_result` returns its repr() in the response. Stdout and stderr are captured.";
        input_schema = typed "object" (
            ("required", json.array (json.string "code" ∷ []))
            ∷ ("properties", json.object (string_field "code" ∷ []))
            ∷ []);
        xlpod_route = "POST /run/python";
        required_scope = ai_exec_python;
        mutates = true;
      }
      ∷ []

  -- `tools::find`.
  unfoldable pub find_tool : String → Option ToolSpec
  unfolding builtin_tools
  find_tool name = find (λ t. t.name == name) builtin_tools
