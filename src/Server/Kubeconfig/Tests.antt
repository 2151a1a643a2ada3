-- ===== src/Server/Kubeconfig/Tests.antt =====
-- A banner.
use Prim.Native.String.{◌++◌ as str_append}
use kubegate.Prelude.{◌≡◌, refl}
use kubegate.Server.Kubeconfig.{banner}

whole :
    banner (λ s. s) "https://10.0.0.2:8443" "Q0VSVA==" "0123" "rw" "prod"
    ≡ str_append
        "\nkubegate is listening.\n\n  cluster context : prod\n  mode            : rw\n  address         : https://10.0.0.2:8443\n\nThe VM needs no cluster credential. Save this as its kubeconfig:\n\n"
        (str_append
          "apiVersion: v1\nkind: Config\nclusters:\n  - name: kubegate\n    cluster:\n      server: https://10.0.0.2:8443\n      certificate-authority-data: Q0VSVA==\nusers:\n  - name: kubegate\n    user:\n      token: 0123\n"
          "contexts:\n  - name: kubegate\n    context:\n      cluster: kubegate\n      user: kubegate\ncurrent-context: kubegate\n\nThen, in the VM:  export KUBECONFIG=/path/to/that/file\n\n")
unfolding banner
whole = refl
