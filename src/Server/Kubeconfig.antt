-- ===== src/Server/Kubeconfig.antt =====
-- internal/server/kubeconfig.go: what the operator sees at the start, with the guest's kubeconfig.
pub mod Pasted
mod Tests
use Prim.Native.String.{◌∷◌, ◌++◌ as str_append}
use kubegate.Prelude.{Char, String, List, [], ◌∷◌, ◌++◌}

abbrev pub newline : Char
newline = "\n"

-- The lines, each ended.
abbrev pub ended : List String → String
ended [] = ""
ended (l ∷ ls) = str_append l (newline ∷ ended ls)

abbrev pub greeting_lines : List String
greeting_lines = "" ∷ "kubegate is listening." ∷ "" ∷ []

abbrev pub cluster_lines : List String
cluster_lines =
    "" ∷ "The VM needs no cluster credential. Save this as its kubeconfig:" ∷ "" ∷ "apiVersion: v1"
    ∷ "kind: Config" ∷ "clusters:" ∷ "  - name: kubegate" ∷ "    cluster:" ∷ []

abbrev pub user_lines : List String
user_lines = "users:" ∷ "  - name: kubegate" ∷ "    user:" ∷ []

abbrev pub context_lines : List String
context_lines =
    "contexts:" ∷ "  - name: kubegate" ∷ "    context:" ∷ "      cluster: kubegate"
    ∷ "      user: kubegate" ∷ "current-context: kubegate" ∷ ""
    ∷ "Then, in the VM:  export KUBECONFIG=/path/to/that/file" ∷ "" ∷ []

-- `Banner`, in lines; `encode` is base64's standard encoding.
abbrev pub banner_lines :
    (String → String) → String → String → String → String → String → List String
banner_lines encode server_url ca_pem token mode context_name =
    greeting_lines
    ++ str_append "  cluster context : " context_name
      ∷ str_append "  mode            : " mode
      ∷ str_append "  address         : " server_url
      ∷ (cluster_lines
          ++ str_append "      server: " server_url
            ∷ str_append "      certificate-authority-data: " (encode ca_pem)
            ∷ (user_lines ++ str_append "      token: " token ∷ context_lines))

-- `Banner`
unfoldable pub banner : (String → String) → String → String → String → String → String → String
banner encode server_url ca_pem token mode context_name =
    ended (banner_lines encode server_url ca_pem token mode context_name)
