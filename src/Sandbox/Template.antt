-- ===== src/Sandbox/Template.antt =====
-- `LUA_SANDBOX_TEMPLATE` of services/lua-validator/main.py, line by line.
use mts_true_tech_hack.Base.{String, List, [], ◌∷◌}

abbrev pub sandbox_template : List String
sandbox_template =
    "\n" ∷ "-- 1. ЧИТАЕМ КОНТЕКСТ ИЗ ПЕРЕМЕННОЙ ОКРУЖЕНИЯ (опционально)\n"
    ∷ "local dkjson = require(\"dkjson\")\n" ∷ "local context_json = os.getenv(\"CONTEXT_JSON\")\n"
    ∷ "\n" ∷ "local wf_data = {{vars = {{}}, initVariables = {{}}}}\n" ∷ "if context_json then\n"
    ∷ "    local ok, context = pcall(dkjson.decode, context_json)\n"
    ∷ "    if ok and context and type(context) == \"table\" and context.wf then\n"
    ∷ "        wf_data = context.wf\n" ∷ "    end\n" ∷ "end\n" ∷ "\n"
    ∷ "-- 2. МОКИРУЕМ СРЕДУ (wf и _utils)\n" ∷ "wf = wf_data\n" ∷ "wf.get = function(self, key)\n"
    ∷ "    return (self.vars and self.vars[key]) or (self.initVariables and self.initVariables[key])\n"
    ∷ "end\n" ∷ "package.loaded.wf = wf\n" ∷ "\n" ∷ "_utils = {{\n"
    ∷ "    array = {{ new = function() return {{}} end, markAsArray = function(arr) return arr end }}\n"
    ∷ "}}\n" ∷ "\n" ∷ "-- 3. СЕРИАЛИЗАТОР (Чтобы Python понял ответ)\n"
    ∷ "local function to_json(v)\n" ∷ "    local t = type(v)\n"
    ∷ "    if t == \"nil\" then return \"null\"\n"
    ∷ "    elseif t == \"boolean\" or t == \"number\" then return tostring(v)\n"
    ∷ "    elseif t == \"string\" then\n" ∷ "        local s = string.format(\"%q\", v):gsub(\"\\\n"
    ∷ "\", \"\\n\")\n" ∷ "        return s\n" ∷ "    elseif t == \"table\" then\n"
    ∷ "        local is_arr, max = true, 0\n" ∷ "        for k, _ in pairs(v) do\n"
    ∷ "            if type(k) ~= \"number\" or k < 1 or math.floor(k) ~= k then is_arr = false break end\n"
    ∷ "            if k > max then max = k end\n" ∷ "        end\n" ∷ "        local res = {{}}\n"
    ∷ "        if is_arr then\n"
    ∷ "            for i=1, max do table.insert(res, to_json(v[i])) end\n"
    ∷ "            return \"[\" .. table.concat(res, \",\") .. \"]\"\n" ∷ "        else\n"
    ∷ "            for k, val in pairs(v) do table.insert(res, to_json(tostring(k))..\":\"..to_json(val)) end\n"
    ∷ "            return \"{{\" .. table.concat(res, \",\") .. \"}}\"\n" ∷ "        end\n"
    ∷ "    end\n" ∷ "    return '\"' .. tostring(v) .. '\"'\n" ∷ "end\n" ∷ "\n"
    ∷ "-- 4. ВЫПОЛНЯЕМ КОД МОДЕЛИ И ПЕРЕХВАТЫВАЕМ РЕЗУЛЬТАТ\n" ∷ "local function run_llm_code()\n"
    ∷ "{user_code}\n" ∷ "end\n" ∷ "\n" ∷ "local success, result = pcall(run_llm_code)\n"
    ∷ "if not success then\n" ∷ "    print(\"RUNTIME_ERROR: \" .. tostring(result))\n"
    ∷ "    os.exit(1)\n" ∷ "end\n" ∷ "\n"
    ∷ "-- Выводим результат в консоль (stdout) с секретным маркером\n"
    ∷ "print(\"___RESULT___=\" .. to_json(result))\n" ∷ []
